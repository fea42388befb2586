-- ===== src/EventGroup/Wake.antt =====
-- kernel/src/event_group.c: what a waiter finds when it has the processor back, and the end of the
-- group.
use so_rtos.Base.{
  ℕ, zero, suc, ◌≡◌, ◌≢◌, ◌<◌, ◌≤◌, refl, ◌==◌, arith, Bool, true, false, not, ◌&&◌, List, [], ◌∷◌,
  Bool-cases, inl, inr, ap, sym, subst, ◌∙◌, if_true, if_false,
}
use Prim.Native.Nat.{bit_or, bit_and}
use so_rtos.Chain.{length, contains, erase}
use so_rtos.Task.{TaskState, max_tasks}
use so_rtos.Sched.{Sched}
use so_rtos.Sched.Block.{task_unblock}
use so_rtos.Chain.{get_last?}
use so_rtos.Sched.Wait.{Call}
use so_rtos.Sched.Invariant.{IsValid, state_of}
use so_rtos.Sched.Invariant.State.{task_unblock-Readied}
use so_rtos.WaitList.{next_in, Waiters}
use so_rtos.WaitList.Order.{IsWaitList}
use so_rtos.WaitList.Remove.{remove_task_from_list-IsWaitList}
use so_rtos.EventGroup.{
  EventGroup, event_satisfied_flag, event_group_set_bits, event_group_delete, wake_all,
  wait_bits_end,
}
use so_rtos.EventGroup.Pending.{Pending, wish_of, granted_bits, is_served}
use so_rtos.EventGroup.Serve.{event_group_set_bits-Served}

all_below : ℕ → (ℕ → Bool) → Bool
all_below zero p = true
all_below (suc n) p = p n && all_below n p

all_below-get : (n : ℕ) (p : ℕ → Bool) (x : ℕ) → all_below n p ≡ true → x < n → p x ≡ true
unfolding all_below
all_below-get zero p x h lt = absurd (omega arith)
all_below-get (suc n) p x h lt = ground (arith, all_below-get n p x)

flag_set :
    all_below 256 (λ f. not (bit_and (bit_or f event_satisfied_flag) event_satisfied_flag == 0))
    ≡ true
unfolding all_below
flag_set = refl

marked :
    (f : ℕ) → f < 256 → (bit_and (bit_or f event_satisfied_flag) event_satisfied_flag == 0) ≡ false
marked f h = ground (
  arith,
  all_below-get 256 (λ f. not (bit_and (bit_or f event_satisfied_flag) event_satisfied_flag == 0)) f
      flag_set h,
)

-- A waiter that `event_group_set_bits` served, with its flags in a byte, gets from
-- `event_group_wait_bits` the bits that were left when its turn came, and the group and the
-- scheduler stay as they are.
pub wait_bits_end-granted :
    (base : ℕ) (eg : EventGroup) (s : Sched) (ys xs : List ℕ) (bits_to_set c : ℕ)
    → Pending base s ys eg.waiters xs
    → let bits = bit_or eg.bits bits_to_set in
      is_served (wish_of s) bits xs c ≡ true
      → (s.task_of c).event_flags < 256
      → let (_, (eg', s')) = event_group_set_bits eg s bits_to_set in
        wait_bits_end eg' s' c ≡ (Call.returns (granted_bits (wish_of s) bits xs c), (eg', s'))
unfolding wait_bits_end event_group_set_bits
wait_bits_end-granted base eg s ys xs bits_to_set c v here byte =
    let (_, r) = event_group_set_bits-Served base eg s ys xs bits_to_set v in
    let (_, wish) = r.served c here in
    let end = (event_group_set_bits eg s bits_to_set).1 in
    let flags = ap (λ w. w.flags) wish in
    if_false _ _ (ap (λ f. bit_and f event_satisfied_flag == 0) flags ∙ marked _ byte)
    ∙ ap (λ m. (Call.returns m, end)) (ap (λ w. w.mask) wish)

-- A waiter that nobody served gets 0 from `event_group_wait_bits`, which takes exactly its node off
-- a well formed list and leaves the bits and the tasks.
pub wait_bits_end-timed_out :
    (eg : EventGroup) (s : Sched) (xs : List ℕ) (c : ℕ)
    → IsWaitList s.nodes eg.waiters xs
    → (bit_and (s.task_of c).event_flags event_satisfied_flag == 0) ≡ true
    → let (call, (eg', s')) = wait_bits_end eg s c in
      (call ≡ Call.returns 0)
      × (eg'.bits ≡ eg.bits)
      × IsWaitList s'.nodes eg'.waiters (erase c xs)
      × (s'.task_of ≡ s.task_of)
unfolding wait_bits_end
wait_bits_end-timed_out eg s xs c v e =
    rw (if_true _ _ e)
      (refl, refl, remove_task_from_list-IsWaitList s.nodes eg.waiters xs c v, refl)

-- What the end of the group leaves.
pub record Released (base : ℕ) (s s' : Sched) (xs : List ℕ) : Type 0 where
  pub sleepers : List ℕ
  pub valid : IsValid base s' sleepers
  pub woken : (t : ℕ) → contains xs t ≡ true → state_of s' t ≡ TaskState.ready
  pub others : (t : ℕ) → contains xs t ≡ false → state_of s' t ≡ state_of s t

wake_all-Released :
    (base fuel : ℕ) (s : Sched) (ys : List ℕ) (w : Waiters) (xs : List ℕ)
    → Pending base s ys w xs
    → length xs ≤ fuel
    → Released base s (wake_all fuel s w.head) xs
unfolding wake_all
wake_all-Released base zero s ys w (x ∷ xs) v f = absurd (omega arith)
wake_all-Released base zero s ys w [] v f = record {
  sleepers = ys;
  valid = v.valid;
  woken = λ t m. cc;
  others = λ t m. refl;
}
wake_all-Released base (suc fuel) s ys w [] v f =
    rw v.list.chain
      (record { sleepers = ys; valid = v.valid; woken = λ t m. cc; others = λ t m. refl })
wake_all-Released base (suc fuel) s ys w (x ∷ xs) v f =
    let waits = v.waits x (ground arith) in
    let (busy, here) = v.wakeable x (ground arith) in
    let own = v.list.owned x (ground arith) in
    let r = task_unblock-Readied base s ys x v.valid (ground (arith, waits)) busy here waits in
    let s₁ = task_unblock s x in
    let w₁ : Waiters = record { head = next_in s.nodes x; tail = get_last? xs } in
    let apart : (t : ℕ) → contains xs t ≡ true → t ≢ x =
      λ t m q. ground (arith, v.list.distinct.0, ap (contains xs) q) in
    let still : Pending base s₁ (erase x ys) w₁ xs = record {
      valid = r.valid;
      list =
          subst (λ n. IsWaitList n w₁ xs) (sym (ap (λ k. k.nodes) r.moves.frame))
            (record {
              chain = v.list.chain.1;
              tail = refl;
              distinct = v.list.distinct.1;
              short = omega (arith, v.list.short);
              owned = λ t m. v.list.owned t (ground arith);
            });
      waits = λ t m. ground (arith, r.moves.others t (apart t m), v.waits t);
      wakeable = λ t m. ground (arith, r.moves.others t (apart t m), v.wakeable t);
    } in
    let end = wake_all-Released base fuel s₁ (erase x ys) w₁ xs still (omega arith) in
    rw (v.list.chain.0, own)
      (record {
        sleepers = end.sleepers;
        valid = end.valid;
        woken = λ t m. elim (Bool-cases (x == t)) [
          | inl e ↦
              let at : x ≡ t = ground arith in
              subst (λ k. state_of (wake_all fuel s₁ w₁.head) k ≡ TaskState.ready) at
                (end.others x v.list.distinct.0 ∙ r.state)
          | inr e ↦ end.woken t (ground arith)
        ];
        others = λ t m.
            end.others t (ground arith) ∙ ap (λ k. k.state) (r.moves.others t (λ q. ground arith));
      })

-- `event_group_delete` makes every task that waits on a well formed list ready, leaves the state of
-- every other task, and keeps the scheduler's invariant.
pub event_group_delete-Released :
    (base : ℕ) (eg : EventGroup) (s : Sched) (ys xs : List ℕ)
    → Pending base s ys eg.waiters xs
    → Released base s (event_group_delete eg s) xs
unfolding event_group_delete
event_group_delete-Released base eg s ys xs v =
    wake_all-Released base max_tasks s ys eg.waiters xs v v.list.short
