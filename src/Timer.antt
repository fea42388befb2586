-- ===== src/Timer.antt =====
-- kernel/src/timer.c: software timers on a list in order of expiry. A timer is an address, and the
-- pool that they come from is of Mempool. Their callbacks are code of the client, run outside the
-- critical section.
pub mod Order
use so_rtos.Base.{
  ℕ, zero, suc, Option, none, some, Bool, true, false, not, ◌&&◌, ◌==◌, ◌%◌, ◌^◌, add32, sub32,
  signed_lt32, uint32_max, update, if◌then◌else◌,
}
use so_rtos.Sched.{Sched}
use so_rtos.Sched.Wait.{task_notify}

-- `struct sw_timer`, with its two flags.
pub record SwTimer : Type 0 where
  pub next : Option ℕ
  pub expiry_tick : ℕ
  pub period_ticks : ℕ
  pub name : ℕ
  pub callback : Option ℕ
  pub arg : ℕ
  pub autoreload : Bool
  pub active : Bool

-- The timers and the variables of the file.
pub record Timers : Type 0 where
  pub timer_of : ℕ → SwTimer
  pub timer_list_head : Option ℕ
  pub timer_task_id : ℕ

abbrev pub change : Timers → ℕ → (SwTimer → SwTimer) → Timers
change m t f = record m { timer_of = update m.timer_of t (f (m.timer_of t)) }

abbrev pub next_timer : Timers → ℕ → Option ℕ
next_timer m t = (m.timer_of t).next

abbrev pub expiry : Timers → ℕ → ℕ
expiry m t = (m.timer_of t).expiry_tick

abbrev pub set_next : Option ℕ → SwTimer → SwTimer
set_next p t = record t { next = p }

abbrev pub set_active : Bool → SwTimer → SwTimer
set_active b t = record t { active = b }

abbrev pub set_expiry : ℕ → SwTimer → SwTimer
set_expiry tick t = record t { expiry_tick = tick }

-- `*curr = p`, where `curr` points to the head, or to the link of a timer.
abbrev pub write_link : Timers → Option ℕ → Option ℕ → Timers
write_link m none p = record m { timer_list_head = p }
write_link m (some prev) p = change m prev (set_next p)

-- The loop of `timer_insert`: the link to write, as the timer it belongs to, and what it holds.
unfoldable pub find_place : ℕ → Timers → ℕ → Option ℕ → Option ℕ → Option ℕ × Option ℕ
find_place zero m tmr prev p = (prev, p)
find_place (suc fuel) m tmr prev none = (prev, none)
find_place (suc fuel) m tmr prev (some curr) =
    let rest = find_place fuel m tmr (some curr) (next_timer m curr) in
    if signed_lt32 (expiry m tmr) (expiry m curr) then (prev, some curr) else rest

-- `timer_insert`, on a list of at most `fuel` timers.
unfoldable pub timer_insert : ℕ → Timers → ℕ → Timers
unfolding find_place
timer_insert fuel m tmr =
    let (prev, p) = find_place fuel m tmr none m.timer_list_head in
    write_link (change m tmr (set_next p)) prev (some tmr)

-- The loop of `timer_remove`.
unfoldable pub remove_behind : ℕ → Timers → ℕ → Option ℕ → Option ℕ → Timers
remove_behind zero m tmr prev p = m
remove_behind (suc fuel) m tmr prev none = m
remove_behind (suc fuel) m tmr prev (some curr) =
    let rest = remove_behind fuel m tmr (some curr) (next_timer m curr) in
    if curr == tmr then change (write_link m prev (next_timer m tmr)) tmr (set_next none) else rest

-- `timer_remove`.
unfoldable pub timer_remove : ℕ → Timers → ℕ → Timers
unfolding remove_behind
timer_remove fuel m tmr = remove_behind fuel m tmr none m.timer_list_head

-- What a round of `timer_check_expiries` comes to: a timer that expired, whose callback, if it has
-- one, runs before the next round, or the ticks to wait.
pub data Expiry : Type 0 where
  expired : ℕ → Expiry
  waits : ℕ → Expiry

-- The timer at the head, when it has expired.
unfoldable pub expire : ℕ → Timers → ℕ → ℕ → Timers
unfolding timer_insert
expire fuel m now tmr =
    let m₁ =
      change (change (record m { timer_list_head = next_timer m tmr }) tmr (set_next none)) tmr
        (set_active false) in
    let due = add32 now (m₁.timer_of tmr).period_ticks in
    if (m₁.timer_of tmr).autoreload
    then timer_insert fuel (change (change m₁ tmr (set_expiry due)) tmr (set_active true)) tmr
    else m₁

-- A round of `timer_check_expiries` at `now`.
unfoldable pub check_head : ℕ → Timers → ℕ → Option ℕ → Expiry × Timers
unfolding expire
check_head fuel m now none = (Expiry.waits uint32_max, m)
check_head fuel m now (some curr) =
    if not (signed_lt32 now (expiry m curr))
    then (Expiry.expired curr, expire fuel m now curr)
    else (Expiry.waits (sub32 (expiry m curr) now), m)

unfoldable pub timer_check_expiries : ℕ → Timers → ℕ → Expiry × Timers
unfolding check_head
timer_check_expiries fuel m now = check_head fuel m (now % 2 ^ 32) m.timer_list_head

-- `timer_create`, on what the pool gave.
unfoldable pub timer_create : Timers → Option ℕ → ℕ → ℕ → Bool → Option ℕ → ℕ → Option ℕ × Timers
timer_create m none name period_ticks auto_reload callback arg = (none, m)
timer_create m (some tmr) name period_ticks auto_reload callback arg = (
  some tmr,
  change m tmr λ t. record t {
    name = name;
    period_ticks = period_ticks;
    autoreload = auto_reload;
    active = false;
    callback = callback;
    arg = arg;
    next = none;
  },
)

-- Is the timer before the head of the list?
unfoldable pub is_earliest : Timers → ℕ → Option ℕ → Bool
is_earliest m timer none = true
is_earliest m timer (some head) = signed_lt32 (expiry m timer) (expiry m head)

-- `timer_start` of a timer that is not NULL, at `now`. It returns 0.
unfoldable pub timer_start : ℕ → Timers → Sched → ℕ → ℕ → Timers × Sched
unfolding timer_insert timer_remove is_earliest
timer_start fuel m s now timer =
    let m₁ = if (m.timer_of timer).active then timer_remove fuel m timer else m in
    let due = add32 (now % 2 ^ 32) (m₁.timer_of timer).period_ticks in
    let m₂ = change (change m₁ timer (set_expiry due)) timer (set_active true) in
    (
      timer_insert fuel m₂ timer,
      if is_earliest m₂ timer m₂.timer_list_head && not (m.timer_task_id == 0)
          then task_notify s m.timer_task_id 1
          else s,
    )

-- `timer_stop` of a timer that is not NULL. It returns 0.
unfoldable pub timer_stop : ℕ → Timers → ℕ → Timers
unfolding timer_remove
timer_stop fuel m timer =
    if (m.timer_of timer).active
    then change (timer_remove fuel m timer) timer (set_active false)
    else m

-- `timer_get_name`, `timer_get_period`, `timer_is_active`.
abbrev pub timer_get_name : Timers → ℕ → ℕ
timer_get_name m timer = (m.timer_of timer).name

abbrev pub timer_get_period : Timers → ℕ → ℕ
timer_get_period m timer = (m.timer_of timer).period_ticks

abbrev pub timer_is_active : Timers → ℕ → Bool
timer_is_active m timer = (m.timer_of timer).active
