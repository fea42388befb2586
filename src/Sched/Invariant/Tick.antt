-- ===== src/Sched/Invariant/Tick.antt =====
-- `_process_sleep_list` and `scheduler_tick` keep the invariant: the tick wakes exactly the due
-- tasks at the head of the sleep list.
use so_rtos.Base.{
  ℕ, zero, suc, ◌≡◌, ◌≤◌, true, false, not, ◌&&◌, List, [], ◌∷◌, Option, none, some, arith,
  Bool-cases, inl, inr, ap, refl, if◌then◌else◌, signed_lt32, ◌==◌, ◌∙◌, ◌%◌, ◌^◌,
}
use so_rtos.Chain.{contains, length, erase}
use so_rtos.Task.{TaskState, max_tasks, is_running}
use so_rtos.Sched.{Sched}
use so_rtos.Sched.Sleep.{
  process_sleep_list, wake_head, wake_tick, wake_sleeping_task, remove_from_sleep_list,
}
use so_rtos.Sched.Switch.{scheduler_tick, tick_slice, slice_at, count_down}
use so_rtos.Sched.Invariant.{IsValid, state_of}
use so_rtos.Sched.Invariant.Unblock.{wake_removed-Readied}
use so_rtos.Sched.Invariant.Attach.{Moves}
use so_rtos.Sched.Invariant.Touch.{modify-IsValid}

-- The sleepers that are left at `now`: those from the first that is not due.
module _ (wake : ℕ → ℕ) (now : ℕ) where
  unfoldable pub drop_due : List ℕ → List ℕ
  drop_due [] = []
  drop_due (x ∷ xs) = if signed_lt32 now (wake x) then x ∷ xs else drop_due xs

drop_due-agree :
    (f g : ℕ → ℕ) (now : ℕ) (xs : List ℕ)
    → ((k : ℕ) → contains xs k ≡ true → g k ≡ f k)
    → drop_due g now xs ≡ drop_due f now xs
unfolding drop_due
drop_due-agree f g now [] h = refl
drop_due-agree f g now (x ∷ xs) h =
    ground (arith, h x, drop_due-agree f g now xs (λ k m. h k (ground arith)))

-- No idle task sleeps.
abbrev pub NoIdle : Sched → List ℕ → Type 0
NoIdle s xs = (k : ℕ) → contains xs k ≡ true → (s.task_of k).is_idle ≡ false

-- The due tasks are ready, the others sleep on, and all else is in place.
pub record Ticked (base : ℕ) (s s' : Sched) (xs ys : List ℕ) : Type 0 where
  pub valid : IsValid base s' ys
  pub woken :
      (k : ℕ) → contains xs k ≡ true → contains ys k ≡ false → state_of s' k ≡ TaskState.ready
  pub kept : (k : ℕ) → contains xs k ≡ false → state_of s' k ≡ state_of s k

head_none :
    (fuel : ℕ) (s : Sched) (now : ℕ) → s.sleep_list ≡ none → process_sleep_list (suc fuel) s now ≡ s
unfolding process_sleep_list
head_none fuel s now e = ap (wake_head (λ s'. process_sleep_list fuel s' now) s now) e

head_early :
    (fuel : ℕ) (s : Sched) (x now : ℕ)
    → s.sleep_list ≡ some x
    → signed_lt32 now (wake_tick s x) ≡ true
    → process_sleep_list (suc fuel) s now ≡ s
unfolding process_sleep_list
head_early fuel s x now e p =
    ap (wake_head (λ s'. process_sleep_list fuel s' now) s now) e ∙ rw (p, wake_head)

head_due :
    (fuel : ℕ) (s : Sched) (x now : ℕ)
    → s.sleep_list ≡ some x
    → signed_lt32 now (wake_tick s x) ≡ false
    → process_sleep_list (suc fuel) s now
      ≡ process_sleep_list fuel (wake_sleeping_task (remove_from_sleep_list s x) x) now
unfolding process_sleep_list
head_due fuel s x now e p =
    ap (wake_head (λ s'. process_sleep_list fuel s' now) s now) e ∙ rw (p, wake_head)

after_head :
    (base : ℕ) (s : Sched) (x : ℕ) (xs : List ℕ) {ys : List ℕ} {s' s″ : Sched}
    → Moves x s s'
    → state_of s' x ≡ TaskState.ready
    → contains xs x ≡ false
    → Ticked base s' s″ xs ys
    → Ticked base s s″ (x ∷ xs) ys
after_head base s x xs moves state fresh rest = record {
  valid = rest.valid;
  woken = λ k p q. elim (Bool-cases (x == k)) [
    | inl e ↦ let same : x ≡ k = ground arith in rw same at (rest.kept x fresh ∙ state)
    | inr e ↦ rest.woken k (ground arith) q
  ];
  kept = λ k p. rest.kept k (ground arith) ∙ ap (λ u. u.state) (moves.others k (λ q. ground arith));
}

pub process_sleep_list-Ticked :
    (base fuel : ℕ) (s : Sched) (xs : List ℕ) (now : ℕ)
    → length xs ≤ fuel
    → IsValid base s xs
    → NoIdle s xs
    → Ticked base s (process_sleep_list fuel s now) xs (drop_due (wake_tick s) now xs)
unfolding process_sleep_list drop_due
process_sleep_list-Ticked base zero s [] now f v busy = record {
  valid = v;
  woken = λ k p q. cc;
  kept = λ k p. refl;
}
process_sleep_list-Ticked base zero s (x ∷ xs) now f v busy = absurd (omega arith)
process_sleep_list-Ticked base (suc fuel) s [] now f v busy =
    rw (head_none fuel s now v.sleep.chain)
      (record { valid = v; woken = λ k p q. cc; kept = λ k p. refl })
process_sleep_list-Ticked base (suc fuel) s (x ∷ xs) now f v busy =
    elim (Bool-cases (signed_lt32 now (wake_tick s x))) [
      | inl early ↦
          rw (head_early fuel s x now v.sleep.chain.0 early, early)
            (record { valid = v; woken = λ k p q. cc; kept = λ k p. refl })
      | inr due ↦
          let s' = wake_sleeping_task (remove_from_sleep_list s x) x in
          let first =
            wake_removed-Readied base s (x ∷ xs) x v (busy x (ground arith))
              (ground (arith, v.sleeping x)) in
          let erased : erase x (x ∷ xs) ≡ xs = ground arith in
          let valid : IsValid base s' xs = rw erased at first.valid in
          let same : (k : ℕ)
              → contains xs k ≡ true
              → s'.task_of k ≡ record (s.task_of k) {
                heap_index = (s'.task_of k).heap_index;
                next = (s'.task_of k).next;
              } =
            λ k m.
              first.moves.others k (λ q. ground (arith, v.sleep.distinct.0, ap (contains xs) q)) in
          let rest =
            process_sleep_list-Ticked base fuel s' xs now (omega arith) valid
              (λ k m. ground (arith, busy k, same k m)) in
          rw (head_due fuel s x now v.sleep.chain.0 due, due)
            (rw
              (drop_due-agree (wake_tick s) (wake_tick s') now xs (λ k m. ground (arith, same k m)))
              at (after_head base s x xs first.moves first.state v.sleep.distinct.0 rest))
    ]

tick_slice-IsValid :
    (base : ℕ) (s : Sched) (xs : List ℕ) → IsValid base s xs → IsValid base (tick_slice s).1 xs
unfolding tick_slice
tick_slice-IsValid base s xs v = by_curr s.curr
  where
    by_curr : (p : Option ℕ) → IsValid base (slice_at s p).1 xs
    by_curr none = v
    by_curr (some c) = elim (Bool-cases (is_running (state_of s c) && not (s.task_of c).is_idle)) [
      | inl e ↦ rw (e, slice_at) (modify-IsValid base s xs c count_down refl refl refl refl refl v)
      | inr e ↦ rw (e, slice_at) v
    ]

tick_slice-state : (s : Sched) (k : ℕ) → state_of (tick_slice s).1 k ≡ state_of s k
unfolding tick_slice
tick_slice-state s k = by_curr s.curr
  where
    by_curr : (p : Option ℕ) → state_of (slice_at s p).1 k ≡ state_of s k
    by_curr none = refl
    by_curr (some c) = ground arith

-- In a state that holds the invariant and where no sleeper is an idle task, `scheduler_tick` makes
-- the due tasks at the head of the sleep list ready, takes exactly them off it, leaves every other
-- task in its state, and keeps the invariant.
pub scheduler_tick-Ticked :
    (base : ℕ) (s : Sched) (xs : List ℕ) (now : ℕ)
    → IsValid base s xs
    → NoIdle s xs
    → Ticked base s (scheduler_tick s now).1 xs (drop_due (wake_tick s) (now % 2 ^ 32) xs)
unfolding scheduler_tick
scheduler_tick-Ticked base s xs now v busy =
    let r = process_sleep_list-Ticked base max_tasks s xs (now % 2 ^ 32) v.sleep.short v busy in
    let s' = process_sleep_list max_tasks s (now % 2 ^ 32) in
    record {
      valid = tick_slice-IsValid base s' _ r.valid;
      woken = λ k p q. tick_slice-state s' k ∙ r.woken k p q;
      kept = λ k p. tick_slice-state s' k ∙ r.kept k p;
    }
