-- ===== src/Sched/Invariant/Yield.antt =====
-- kernel/src/scheduler.c: what `schedule_next_task` does to the task that just ran.
use so_rtos.Base.{
  ℕ, ◌≡◌, true, false, List, Option, none, some, arith, Bool-cases, inl, inr, ap, refl, if_true,
  if_false, ◌∙◌,
}
use so_rtos.Task.{Task, TaskState, is_ready, is_running}
use so_rtos.Sched.{Sched, modify}
use so_rtos.Sched.Heap.{heap_insert}
use so_rtos.Sched.Heap.Swap.{Fits}
use so_rtos.Sched.Sleep.{set_state}
use so_rtos.Sched.Switch.{account, add_cpu_ticks, recharge, charge, yield_current}
use so_rtos.Sched.Invariant.{IsValid, state_of}
use so_rtos.Sched.Invariant.Off.{IsOff-of_valid, modify-IsOff, settle-IsValid}
use so_rtos.Sched.Invariant.Attach.{heap_insert-IsValid}
use so_rtos.Sched.Invariant.Touch.{modify-IsValid}

-- The charge leaves the current task in the window.
abbrev pub ChargeFits : ℕ → Sched → Option ℕ → Type 0
ChargeFits base s none = Unit {0}
ChargeFits base s (some c) = Fits base (recharge (s.task_of c)).vruntime

charge-set_state : (x : TaskState) (t : Task) → charge (set_state x t) ≡ charge t
unfolding charge
charge-set_state x t = refl

charge-add_cpu_ticks : (now : ℕ) (t : Task) → charge (add_cpu_ticks now t) ≡ charge t
unfolding charge
charge-add_cpu_ticks now t = refl

yield_current-idle :
    (s : Sched) (c : ℕ)
    → is_running (state_of s c) ≡ true
    → (s.task_of c).is_idle ≡ true
    → yield_current s (some c) ≡ modify s c (set_state TaskState.ready)
unfolding yield_current
yield_current-idle s c e idle = if_true _ _ e ∙ if_true _ _ idle

yield_current-busy :
    (s : Sched) (c : ℕ)
    → is_running (state_of s c) ≡ true
    → (s.task_of c).is_idle ≡ false
    → yield_current s (some c)
      ≡ heap_insert (modify (modify s c (set_state TaskState.ready)) c recharge) c
unfolding yield_current
yield_current-busy s c e busy = if_true _ _ e ∙ if_false _ _ busy

-- What putting the current task back leaves.
pub record Yielded (base : ℕ) (s s' : Sched) (xs : List ℕ) : Type 0 where
  pub valid : IsValid base s' xs
  pub idle_task : s'.idle_task ≡ s.idle_task
  pub idle : (k : ℕ) → (s'.task_of k).is_idle ≡ (s.task_of k).is_idle
  pub ready : (k : ℕ) → is_ready (state_of s k) ≡ true → is_ready (state_of s' k) ≡ true

pub Yielded-refl : (base : ℕ) (s : Sched) (xs : List ℕ) → IsValid base s xs → Yielded base s s xs
Yielded-refl base s xs v = record {
  valid = v;
  idle_task = refl;
  idle = λ k. refl;
  ready = λ k h. h;
}

pub yield_current-Yielded :
    (base : ℕ) (s : Sched) (xs : List ℕ) (p : Option ℕ)
    → IsValid base s xs
    → ChargeFits base s p
    → Yielded base s (yield_current s p) xs
unfolding yield_current
yield_current-Yielded base s xs none v fits = Yielded-refl base s xs v
yield_current-Yielded base s xs (some c) v fits = elim (Bool-cases (is_running (state_of s c))) [
  | inl e ↦
      let off =
        IsOff-of_valid base s xs c v (ground arith) (ground (arith, v.queued c))
          (ground (arith, v.sleeping c)) in
      let s' = modify s c (set_state TaskState.ready) in
      let off' =
        modify-IsOff base s xs c false (set_state TaskState.ready) refl (λ _. refl) off.own_fits
          off in
      elim (Bool-cases (s.task_of c).is_idle) [
        | inl idle ↦ rw (yield_current-idle s c e idle) (record {
          valid = settle-IsValid base s' xs c false off' (ground arith) (ground arith);
          idle_task = refl;
          idle = λ k. ground arith;
          ready = λ k h. ground arith;
        })
        | inr busy ↦
            let s″ = modify s' c recharge in
            let at : s'.task_of c ≡ set_state TaskState.ready (s.task_of c) = ground arith in
            let fits' : Fits base (recharge (s'.task_of c)).vruntime =
              ground (arith, fits, ap charge at, charge-set_state TaskState.ready (s.task_of c)) in
            let (valid, r) =
              heap_insert-IsValid base s″ xs c
                (modify-IsOff base s' xs c false recharge refl (λ _. refl) fits' off')
                (ground arith) (ground arith) in
            rw (yield_current-busy s c e busy) (record {
              valid = valid;
              idle_task = ap (λ u. u.idle_task) r.frame;
              idle = λ k. ground (arith, r.task k);
              ready = λ k h. ground (arith, r.task k);
            })
      ]
  | inr e ↦ rw (if_false _ _ e) (Yielded-refl base s xs v)
]

pub account-Yielded :
    (base : ℕ) (s : Sched) (xs : List ℕ) (now : ℕ) (p : Option ℕ)
    → IsValid base s xs
    → Yielded base s (account s now p) xs
unfolding account
account-Yielded base s xs now none v = Yielded-refl base s xs v
account-Yielded base s xs now (some c) v = record {
  valid = modify-IsValid base s xs c (add_cpu_ticks now) refl refl refl refl refl v;
  idle_task = refl;
  idle = λ k. ground arith;
  ready = λ k h. ground arith;
}

pub ChargeFits-account :
    (base : ℕ) (s : Sched) (now : ℕ) (p : Option ℕ)
    → ChargeFits base s p
    → ChargeFits base (account s now p) p
unfolding account
ChargeFits-account base s now none h = h
ChargeFits-account base s now (some c) h =
    let at : (account s now (some c)).task_of c ≡ add_cpu_ticks now (s.task_of c) = ground arith in
    ground (arith, h, ap charge at, charge-add_cpu_ticks now (s.task_of c))

pub curr-account : (s : Sched) (now : ℕ) (p : Option ℕ) → (account s now p).curr ≡ s.curr
unfolding account
curr-account s now none = refl
curr-account s now (some c) = refl

pub count-account : (s : Sched) (now : ℕ) (p : Option ℕ) → (account s now p).count ≡ s.count
unfolding account
count-account s now none = refl
count-account s now (some c) = refl
