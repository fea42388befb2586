-- ===== src/Sched/Invariant/Sleeping.antt =====
-- `task_sleep_ticks` and `task_notify` keep the invariant.
use so_rtos.Base.{
  ℕ, ◌≡◌, true, false, ◌||◌, List, some, arith, ap, refl, if_false, ◌∙◌, leb, ◌==◌, add32, ◌%◌, ◌^◌,
}
use so_rtos.Chain.{erase}
use so_rtos.Task.{TaskState, max_cpus, is_ready, is_running, is_unused}
use so_rtos.Sched.{Sched, modify}
use so_rtos.Sched.Sleep.{
  set_state, set_sleep_until, remove_from_sleep_list, insert_into_sleep_list, wake_tick,
  unblock_task_locked,
}
use so_rtos.Sched.Sleep.Insert.{place}
use so_rtos.Sched.Wait.{Call, fall_asleep, sleep_from, task_sleep_ticks, notify_found, notified}
use so_rtos.Sched.Invariant.{IsValid, is_live, state_of}
use so_rtos.Sched.Invariant.Off.{modify-IsOff, settle-IsValid}
use so_rtos.Sched.Invariant.Attach.{Moves, insert_into_sleep_list-IsOff}
use so_rtos.Sched.Invariant.Unblock.{remove_from_sleep_list-Woken, unblock_task_locked-IsValid}
use so_rtos.Sched.Invariant.Touch.{modify-IsValid}

-- The state in which the task is put on the sleep list.
abbrev pub dozing : Sched → ℕ → ℕ → Sched
dozing s c until =
    modify (modify (remove_from_sleep_list s c) c (set_sleep_until until)) c
      (set_state TaskState.sleeping)

-- What falling asleep leaves: the sleep list is `xs`.
pub record Asleep (base c until : ℕ) (s s' : Sched) (xs : List ℕ) : Type 0 where
  pub valid : IsValid base s' xs
  pub moves : Moves c s s'
  pub state : state_of s' c ≡ TaskState.sleeping
  pub wake : wake_tick s' c ≡ until
  pub idle : (s'.task_of c).is_idle ≡ (s.task_of c).is_idle
  pub cpu : (s'.task_of c).cpu_id ≡ (s.task_of c).cpu_id
  pub mask : (s'.task_of c).event_mask ≡ (s.task_of c).event_mask
  pub flags : (s'.task_of c).event_flags ≡ (s.task_of c).event_flags

-- A live task that is not ready falls asleep.
pub fall_asleep-Asleep :
    (base : ℕ) (s : Sched) (xs : List ℕ) (c until : ℕ)
    → IsValid base s xs
    → is_live (state_of s c) ≡ true
    → is_ready (state_of s c) ≡ false
    → Asleep base c until s
        (fall_asleep s c until)
        (place (wake_tick (dozing s c until)) c (erase c xs))
unfolding fall_asleep
fall_asleep-Asleep base s xs c until v live other =
    let w = remove_from_sleep_list-Woken base s xs c v live (ground (arith, v.queued c)) in
    let s₁ = remove_from_sleep_list s c in
    let s₂ = modify s₁ c (set_sleep_until until) in
    let off₂ =
      modify-IsOff base s₁ (erase c xs) c false (set_sleep_until until) refl (λ _. refl)
        w.off.own_fits w.off in
    let off₃ =
      modify-IsOff base s₂ (erase c xs) c false (set_state TaskState.sleeping) refl (λ _. refl)
        off₂.own_fits off₂ in
    let (on, r) = insert_into_sleep_list-IsOff base (dozing s c until) (erase c xs) c off₃ in
    record {
      valid =
          settle-IsValid base (insert_into_sleep_list (dozing s c until) c) _ c true on
            (ground (arith, r.task c)) (ground (arith, r.task c));
      moves = record {
        frame = ground (arith, w.moves.frame, r.frame);
        others = λ k ne. ground (arith, w.moves.others k ne, r.task k);
      };
      state = ground (arith, r.task c);
      wake = ground (arith, r.task c);
      idle = ground (arith, r.task c, w.idle);
      cpu = ground (arith, r.task c, w.cpu);
      mask = ground (arith, r.task c, w.mask);
      flags = ground (arith, r.task c, w.flags);
    }

pub sleeps :
    (s : Sched) (c ticks now : ℕ)
    → s.curr ≡ some c
    → (s.task_of c).is_idle ≡ false
    → (ticks == 0) ≡ false
    → task_sleep_ticks s ticks now ≡ (Call.yields, fall_asleep s c (add32 (now % 2 ^ 32) ticks))
unfolding task_sleep_ticks
sleeps s c ticks now p q r =
    ap (sleep_from s ticks now) p
    ∙ if_false _ _ {b = ticks == 0 || (s.task_of c).is_idle} (ground arith)

notifies :
    (s : Sched) (t value : ℕ)
    → (leb max_cpus (s.task_of t).cpu_id || is_unused (state_of s t)) ≡ false
    → notify_found s t value ≡ unblock_task_locked (modify s t (notified value)) t
unfolding notify_found
notifies s t value h = if_false _ _ h

-- In a state that holds the invariant, `task_sleep_ticks` of more than 0 ticks by a running task
-- that is not idle puts it on the sleep list, in its place, to wake at the tick that is that far
-- ahead modulo 2^32, keeps the invariant, and yields.
pub task_sleep_ticks-IsValid :
    (base : ℕ) (s : Sched) (xs : List ℕ) (c ticks now : ℕ)
    → IsValid base s xs
    → s.curr ≡ some c
    → is_running (state_of s c) ≡ true
    → (s.task_of c).is_idle ≡ false
    → (ticks == 0) ≡ false
    → let (call, s') = task_sleep_ticks s ticks now in
      (call ≡ Call.yields)
      × IsValid base s' (place (wake_tick (dozing s c (add32 (now % 2 ^ 32) ticks))) c (erase c xs))
      × (state_of s' c ≡ TaskState.sleeping)
      × (wake_tick s' c ≡ add32 (now % 2 ^ 32) ticks)
task_sleep_ticks-IsValid base s xs c ticks now v at runs busy some_ticks =
    let r =
      fall_asleep-Asleep base s xs c (add32 (now % 2 ^ 32) ticks) v (ground arith) (ground arith) in
    rw (sleeps s c ticks now at busy some_ticks) (refl, r.valid, r.state, r.wake)

-- `task_notify` on a task that it found, that is not idle, not unused and on a CPU that exists,
-- keeps the invariant, with the task off the sleep list.
pub notify_found-IsValid :
    (base : ℕ) (s : Sched) (xs : List ℕ) (t value : ℕ)
    → IsValid base s xs
    → (s.task_of t).is_idle ≡ false
    → (leb max_cpus (s.task_of t).cpu_id || is_unused (state_of s t)) ≡ false
    → IsValid base (notify_found s t value) (erase t xs)
unfolding notify_found
notify_found-IsValid base s xs t value v busy here =
    let s' = modify s t (notified value) in
    let valid = modify-IsValid base s xs t (notified value) refl refl refl refl refl v in
    rw (notifies s t value here) (unblock_task_locked-IsValid base s' xs t valid (ground arith))
