-- ===== src/EventGroup/Pending.antt =====
-- kernel/src/event_group.c: the tasks that wait on an event group, and what serving them in their
-- order comes to.
use so_rtos.Base.{
  ℕ, ◌≡◌, ◌≢◌, refl, ◌==◌, arith, Bool, true, false, not, ◌&&◌, ◌||◌, List, [], ◌∷◌, ◌++◌, ap, sym,
  subst, if◌then◌else◌,
}
use Prim.Native.Nat.{bit_or}
use so_rtos.Chain.{contains, erase}
use so_rtos.Task.{WaitNode, TaskState, is_blocked, is_sleeping}
use so_rtos.Sched.{Sched, modify}
use so_rtos.Sched.Block.{task_unblock}
use so_rtos.Sched.Invariant.{IsValid, state_of}
use so_rtos.Sched.Invariant.State.{task_unblock-Readied}
use so_rtos.Sched.Invariant.Touch.{modify-IsValid}
use so_rtos.WaitList.{Waiters}
use so_rtos.WaitList.Order.{IsWaitList}
use so_rtos.WaitList.Wake.{IsWakeable, nodes-IsValid}
use so_rtos.EventGroup.{EventGroup, event_satisfied_flag, set_event_wait, is_satisfied, take_bits}

-- A waiter with a timeout is on the sleep list as well.
abbrev pub is_waiting : TaskState → Bool
is_waiting x = is_blocked x || is_sleeping x

-- The scheduler is valid, and the list holds exactly the nodes `xs`, whose tasks wait.
pub record Pending (base : ℕ) (s : Sched) (ys : List ℕ) (w : Waiters) (xs : List ℕ) : Type 0 where
  pub valid : IsValid base s ys
  pub list : IsWaitList s.nodes w xs
  pub waits : (t : ℕ) → contains xs t ≡ true → is_waiting (state_of s t) ≡ true
  pub wakeable : (t : ℕ) → contains xs t ≡ true → IsWakeable s t

-- What a waiter's task asks for.
pub record Wish : Type 0 where
  pub mask : ℕ
  pub flags : ℕ

abbrev pub wish_of : Sched → ℕ → Wish
wish_of s t = record { mask = (s.task_of t).event_mask; flags = (s.task_of t).event_flags }

abbrev pub is_granted : ℕ → Wish → Bool
is_granted bits w = is_satisfied bits w.mask w.flags

abbrev pub bits_behind : ℕ → Wish → ℕ
bits_behind bits w = if is_granted bits w then take_bits bits w.mask w.flags else bits

-- The bits behind all of the waiters, and the waiters that stay.
abbrev pub final_bits : (ℕ → Wish) → ℕ → List ℕ → ℕ
final_bits wish bits [] = bits
final_bits wish bits (x ∷ xs) = final_bits wish (bits_behind bits (wish x)) xs

abbrev pub unserved : (ℕ → Wish) → ℕ → List ℕ → List ℕ
unserved wish bits [] = []
unserved wish bits (x ∷ xs) =
    let rest = unserved wish (bits_behind bits (wish x)) xs in
    if is_granted bits (wish x) then rest else x ∷ rest

-- The bits that the waiter `t` is woken with.
abbrev pub granted_bits : (ℕ → Wish) → ℕ → List ℕ → ℕ → ℕ
granted_bits wish bits [] t = bits
granted_bits wish bits (x ∷ xs) t =
    let rest = granted_bits wish (bits_behind bits (wish x)) xs t in
    if x == t then bits_behind bits (wish x) else rest

abbrev pub is_served : (ℕ → Wish) → ℕ → List ℕ → ℕ → Bool
is_served wish bits xs t = contains xs t && not (contains (unserved wish bits xs) t)

-- What the walk over the waiters `xs` behind `front` leaves.
pub record Served (base : ℕ) (wish : ℕ → Wish) (bits : ℕ) (s : Sched) (front xs : List ℕ)
    (eg' : EventGroup) (s' : Sched) : Type 0 where
  pub sleepers : List ℕ
  pub still : Pending base s' sleepers eg'.waiters (front ++ unserved wish bits xs)
  pub left : eg'.bits ≡ final_bits wish bits xs
  pub served :
      (t : ℕ)
      → is_served wish bits xs t ≡ true
      → (state_of s' t ≡ TaskState.ready)
        × (wish_of s' t ≡ record {
          mask = granted_bits wish bits xs t;
          flags = bit_or (wish t).flags event_satisfied_flag;
        })
  pub others :
      (t : ℕ)
      → is_served wish bits xs t ≡ false
      → (state_of s' t ≡ state_of s t) × (wish_of s' t ≡ wish_of s t)

-- What taking the waiter `x` off the list and waking it leaves.
pub record Granted (base x : ℕ) (mask flags : ℕ) (s s' : Sched) (ys : List ℕ) (w' : Waiters)
    (zs : List ℕ) : Type 0 where
  pub still : Pending base s' (erase x ys) w' zs
  pub state : state_of s' x ≡ TaskState.ready
  pub wish : wish_of s' x ≡ record { mask = mask; flags = flags }
  pub others : (t : ℕ) → t ≢ x → (state_of s' t ≡ state_of s t) × (wish_of s' t ≡ wish_of s t)

pub Granted-Pending :
    (base : ℕ) (s : Sched) (ys : List ℕ) (w w' : Waiters) (xs zs : List ℕ) (x mask flags : ℕ)
    (nodes : ℕ → WaitNode)
    → Pending base s ys w xs
    → contains xs x ≡ true
    → ((t : ℕ) → contains zs t ≡ true → (contains xs t ≡ true) × (t ≢ x))
    → IsWaitList nodes w' zs
    → Granted base x mask flags s
        (task_unblock (modify (record s { nodes = nodes }) x (set_event_wait mask flags)) x)
        ys
        w'
        zs
Granted-Pending base s ys w w' xs zs x mask flags nodes v here apart list =
    let u = modify (record s { nodes = nodes }) x (set_event_wait mask flags) in
    let valid =
      modify-IsValid base (record s { nodes = nodes }) ys x (set_event_wait mask flags) refl refl
        refl refl refl (nodes-IsValid base s ys nodes v.valid) in
    let (busy, cpu) = v.wakeable x here in
    let waits = v.waits x here in
    let r =
      task_unblock-Readied base u ys x valid (ground (arith, waits)) (ground (arith, busy))
        (ground (arith, cpu)) (ground (arith, waits)) in
    let s' = task_unblock u x in
    let other : (t : ℕ) → t ≢ x → (state_of s' t ≡ state_of s t) × (wish_of s' t ≡ wish_of s t) =
      λ t ne. (ground (arith, r.moves.others t ne), ground (arith, r.moves.others t ne)) in
    record {
      still = record {
        valid = r.valid;
        list = subst (λ n. IsWaitList n w' zs) (sym (ap (λ k. k.nodes) r.moves.frame)) list;
        waits =
            λ t m. let (old, ne) = apart t m in ground (arith, r.moves.others t ne, v.waits t old);
        wakeable = λ t m.
            let (old, ne) = apart t m in ground (arith, r.moves.others t ne, v.wakeable t old);
      };
      state = r.state;
      wish = ground (arith, r.mask, r.flags);
      others = other;
    }
