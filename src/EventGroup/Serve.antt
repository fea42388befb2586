-- ===== src/EventGroup/Serve.antt =====
-- kernel/src/event_group.c: setting bits wakes exactly the waiters that the bits satisfy, in their
-- order, each with the bits that those before it left.
use so_rtos.Base.{
  ℕ, zero, suc, ◌≡◌, ◌≤◌, refl, ◌==◌, arith, true, false, Option, none, some, List, [], ◌∷◌, ◌++◌,
  Bool-cases, inl, inr, ap, sym, subst, ◌∙◌, if_true, if_false,
}
use Prim.Native.Nat.{bit_or}
use so_rtos.Chain.{length, contains, erase, head?, get_last?, head?-IsChain, contains-append}
use so_rtos.Task.{TaskState, max_tasks}
use so_rtos.Sched.{Sched, modify}
use so_rtos.Sched.Block.{task_unblock}
use so_rtos.Sched.Invariant.{state_of}
use so_rtos.WaitList.{next_in, Waiters, unlink_waiter}
use so_rtos.WaitList.Order.{get_last?-append}
use so_rtos.EventGroup.{
  EventGroup, event_satisfied_flag, set_event_wait, wake_satisfied, check_waiter, check_loop,
  check_and_wake_tasks, event_group_set_bits,
}
use so_rtos.EventGroup.Unlink.{middle-IsDistinct, next-middle, unlink_waiter-IsWaitList}
use so_rtos.EventGroup.Pending.{
  Pending, Wish, wish_of, is_granted, bits_behind, final_bits, unserved, granted_bits, Served,
  Granted, Granted-Pending,
}

-- The state in which the waiter `x` has been served.
abbrev served_group : EventGroup → Sched → Option ℕ → ℕ → Wish → EventGroup
served_group eg s p x w = record {
  waiters = (unlink_waiter s.nodes eg.waiters (some (p, x))).1;
  bits = bits_behind eg.bits w;
}

abbrev served_sched : EventGroup → Sched → Option ℕ → ℕ → Wish → Sched
served_sched eg s p x w =
    let nodes = (unlink_waiter s.nodes eg.waiters (some (p, x))).0 in
    task_unblock
      (modify (record s { nodes = nodes }) x
        (set_event_wait (bits_behind eg.bits w) (bit_or w.flags event_satisfied_flag)))
      x

module _ (eg : EventGroup) (s : Sched) (p : Option ℕ) (x : ℕ) (own : (s.nodes x).task ≡ x) where
  check_waiter-served :
      is_granted eg.bits (wish_of s x) ≡ true
      → check_waiter eg s p x
        ≡ ((served_group eg s p x (wish_of s x), served_sched eg s p x (wish_of s x)), p)
  unfolding check_waiter wake_satisfied
  check_waiter-served e = rw (own, e) refl

  check_waiter-stays :
      is_granted eg.bits (wish_of s x) ≡ false → check_waiter eg s p x ≡ ((eg, s), some x)
  unfolding check_waiter
  check_waiter-stays e = rw (own, e) refl

append_middle : (front : List ℕ) (x : ℕ) (zs : List ℕ) → (front ++ x ∷ []) ++ zs ≡ front ++ x ∷ zs
append_middle [] x zs = refl
append_middle (y ∷ front) x zs = ap (◌∷◌ y) (append_middle front x zs)

contains-unserved :
    (wish : ℕ → Wish) (bits : ℕ) (xs : List ℕ) (t : ℕ)
    → contains (unserved wish bits xs) t ≡ true
    → contains xs t ≡ true
contains-unserved wish bits [] t h = h
contains-unserved wish bits (x ∷ xs) t h =
    ground (arith, contains-unserved wish (bits_behind bits (wish x)) xs t)

served-Granted :
    (base : ℕ) (eg : EventGroup) (s : Sched) (ys front : List ℕ) (x : ℕ) (xs : List ℕ)
    → Pending base s ys eg.waiters (front ++ x ∷ xs)
    → let w = wish_of s x in
      let p = get_last? front in
      Granted base x
        (bits_behind eg.bits w)
        (bit_or w.flags event_satisfied_flag)
        s
        (served_sched eg s p x w)
        ys
        (served_group eg s p x w).waiters
        (front ++ xs)
served-Granted base eg s ys front x xs v =
    let (out, out') = middle-IsDistinct front x xs v.list.distinct in
    Granted-Pending base s ys eg.waiters _ (front ++ x ∷ xs) (front ++ xs) x _ _ _ v
      (ground (arith, contains-append front (x ∷ xs) x))
      (λ t m. (
        ground (arith, contains-append front (x ∷ xs) t, contains-append front xs t),
        λ q. ground (arith, contains-append front xs x, ap (contains (front ++ xs)) q),
      ))
      (unlink_waiter-IsWaitList s.nodes eg.waiters front x xs v.list)

-- Serving the waiter `x` first, and then those behind it.
Served-first :
    (base : ℕ) (wish : ℕ → Wish) (bits : ℕ) (s s₁ s' : Sched) (front : List ℕ) (x : ℕ)
    (xs ys : List ℕ) (w₁ : Waiters) (eg' : EventGroup)
    → contains xs x ≡ false
    → is_granted bits (wish x) ≡ true
    → Granted base x
        (bits_behind bits (wish x))
        (bit_or (wish x).flags event_satisfied_flag)
        s
        s₁
        ys
        w₁
        (front ++ xs)
    → Served base wish (bits_behind bits (wish x)) s₁ front xs eg' s'
    → Served base wish bits s front (x ∷ xs) eg' s'
Served-first base wish bits s s₁ s' front x xs ys w₁ eg' out e g r = record {
  sleepers = r.sleepers;
  still =
      subst (λ zs. Pending base s' r.sleepers eg'.waiters (front ++ zs)) (sym (if_true _ _ e))
        r.still;
  left = r.left;
  served = λ t m. elim (Bool-cases (x == t)) [
    | inl q ↦
        let at : x ≡ t = ground arith in
        let (state, w) = r.others x (ground (arith, out)) in
        subst
          (λ k.
            (state_of s' k ≡ TaskState.ready)
            × (wish_of s' k ≡ record {
              mask = granted_bits wish bits (x ∷ xs) k;
              flags = bit_or (wish k).flags event_satisfied_flag;
            }))
          at (state ∙ g.state, w ∙ (g.wish ∙ ground arith))
    | inr q ↦ let (state, w) = r.served t (ground arith) in (state, w ∙ ground arith)
  ];
  others = λ t m. elim (Bool-cases (x == t)) [
    | inl q ↦
        let at : x ≡ t = ground arith in
        absurd (
          ground
            (arith, contains-unserved wish (bits_behind bits (wish x)) xs t, ap (contains xs) at))
    | inr q ↦
        let (state, w) = r.others t (ground arith) in
        let (state', w') = g.others t (λ k. ground arith) in (state ∙ state', w ∙ w')
  ];
}

-- A waiter that stays, and those behind it.
Served-behind :
    (base : ℕ) (wish : ℕ → Wish) (bits : ℕ) (s s' : Sched) (front : List ℕ) (x : ℕ) (xs : List ℕ)
    (eg' : EventGroup)
    → contains xs x ≡ false
    → is_granted bits (wish x) ≡ false
    → Served base wish bits s (front ++ x ∷ []) xs eg' s'
    → Served base wish bits s front (x ∷ xs) eg' s'
Served-behind base wish bits s s' front x xs eg' out e r =
    let same : bits_behind bits (wish x) ≡ bits = if_false _ _ e in
    record {
      sleepers = r.sleepers;
      still =
          subst (Pending base s' r.sleepers eg'.waiters)
            (append_middle front x (unserved wish bits xs)
              ∙ ap (λ zs. front ++ zs)
                  (sym (if_false _ _ e ∙ ap (λ b. x ∷ unserved wish b xs) same)))
            r.still;
      left = r.left ∙ ap (λ b. final_bits wish b xs) (sym same);
      served = λ t m.
          let kept = ap (λ b. contains (unserved wish b xs) t) same in
          let (state, w) = r.served t (ground (arith, kept)) in
          (state, w ∙ ground (arith, kept, ap (λ b. granted_bits wish b xs t) same));
      others = λ t m.
          let kept = ap (λ b. contains (unserved wish b xs) t) same in
          r.others t (ground (arith, kept, contains-unserved wish bits xs t));
    }

check_loop-Served :
    (base : ℕ) (wish : ℕ → Wish) (fuel : ℕ) (eg : EventGroup) (s : Sched) (ys front xs : List ℕ)
    → Pending base s ys eg.waiters (front ++ xs)
    → ((t : ℕ) → contains xs t ≡ true → wish_of s t ≡ wish t)
    → length xs ≤ fuel
    → let (eg', s') = check_loop fuel eg s (get_last? front) (head? xs) in
      Served base wish eg.bits s front xs eg' s'
unfolding check_loop
check_loop-Served base wish zero eg s ys front (x ∷ xs) v asks f = absurd (omega arith)
check_loop-Served base wish zero eg s ys front [] v asks f = record {
  sleepers = ys;
  still = v;
  left = refl;
  served = λ t m. absurd (ground arith);
  others = λ t m. (refl, refl);
}
check_loop-Served base wish (suc fuel) eg s ys front [] v asks f = record {
  sleepers = ys;
  still = v;
  left = refl;
  served = λ t m. absurd (ground arith);
  others = λ t m. (refl, refl);
}
check_loop-Served base wish (suc fuel) eg s ys front (x ∷ xs) v asks f =
    let (_, out) = middle-IsDistinct front x xs v.list.distinct in
    let next = next-middle (next_in s.nodes) eg.waiters.head front x xs v.list.chain in
    let own = v.list.owned x (ground (arith, contains-append front (x ∷ xs) x)) in
    let p = get_last? front in
    let w = wish_of s x in
    let at : w ≡ wish x = asks x (ground arith) in
    elim (Bool-cases (is_granted eg.bits w)) [
      | inl e ↦
          let g = served-Granted base eg s ys front x xs v in
          let eg₁ = served_group eg s p x w in
          let s₁ = served_sched eg s p x w in
          let end = check_loop fuel eg₁ s₁ p (head? xs) in
          let r =
            check_loop-Served base wish fuel eg₁ s₁ (erase x ys) front xs g.still
              (λ t m.
                (g.others t (λ q. ground (arith, ap (contains xs) q))).1 ∙ asks t (ground arith))
              (omega arith) in
          rw (next, check_waiter-served eg s p x own e)
            (Served-first base wish eg.bits s s₁ end.1 front x xs ys eg₁.waiters end.0 out
              (subst (λ z. is_granted eg.bits z ≡ true) at e)
              (subst
                (λ z.
                  Granted base x (bits_behind eg.bits z) (bit_or z.flags event_satisfied_flag) s s₁
                    ys eg₁.waiters (front ++ xs))
                at g)
              (subst (λ z. Served base wish (bits_behind eg.bits z) s₁ front xs end.0 end.1) at r))
      | inr e ↦
          let end = check_loop fuel eg s (some x) (head? xs) in
          let r =
            check_loop-Served base wish fuel eg s ys (front ++ x ∷ []) xs
              (subst (Pending base s ys eg.waiters) (sym (append_middle front x xs)) v)
              (λ t m. asks t (ground arith)) (omega arith) in
          rw (next, check_waiter-stays eg s p x own e)
            (Served-behind base wish eg.bits s end.1 front x xs end.0 out
              (subst (λ z. is_granted eg.bits z ≡ false) at e) (rw (get_last?-append front x) at r))
    ]

-- On a well formed list of waiting tasks, `event_group_set_bits` sets the new bits, returns the bits
-- as they are before any waiter takes some, and serves the waiters in their order: a waiter that the
-- bits satisfy leaves the list, takes its bits if it asked for that, and is made ready with the bits
-- that are left and the mark that it was satisfied; the group keeps the bits that nobody took, the
-- others keep their places, states and wishes, and the scheduler's invariant stands.
pub event_group_set_bits-Served :
    (base : ℕ) (eg : EventGroup) (s : Sched) (ys xs : List ℕ) (bits_to_set : ℕ)
    → Pending base s ys eg.waiters xs
    → let (result, (eg', s')) = event_group_set_bits eg s bits_to_set in
      (result ≡ bit_or eg.bits bits_to_set) × Served base (wish_of s) result s [] xs eg' s'
unfolding event_group_set_bits check_and_wake_tasks
event_group_set_bits-Served base eg s ys xs bits_to_set v =
    let eg' = record eg { bits = bit_or eg.bits bits_to_set } in
    (
      refl,
      subst
          (λ p.
            let (eg″, s″) = check_loop max_tasks eg' s none p in
            Served base (wish_of s) eg'.bits s [] xs eg″ s″)
          (sym (head?-IsChain (next_in s.nodes) eg.waiters.head xs v.list.chain))
          (check_loop-Served base (wish_of s) max_tasks eg' s ys [] xs v (λ t m. refl)
            v.list.short),
    )
