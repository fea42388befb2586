-- ===== src/WaitList/Remove.antt =====
-- kernel/src/queue.c: `_remove_task_from_list` takes exactly one task out of a wait list.
use so_rtos.Base.{
  subst, ℕ, zero, suc, ◌≡◌, ◌≢◌, ◌≤◌, refl, ◌==◌, arith, true, false, Option, none, some, List, [],
  ◌∷◌, Bool-cases, inl, inr, ap, sym, subst, points_to, if◌then◌else◌, ◌∙◌, if_false, if_true,
}
use so_rtos.Chain.{
  length, contains, erase, get_last?, IsDistinct, IsChain, IsChain-agree, erase-IsDistinct,
  length-erase-le, erase_absent, contains-erase,
}
use so_rtos.Task.{WaitNode, max_tasks}
use so_rtos.WaitList.{Waiters, set_link, next_in, find_waiter, unlink_waiter, remove_task_from_list}
use so_rtos.WaitList.Order.{IsWaitList, get_last?-contains}

-- Each node of the list names its own task.
abbrev Owned : (ℕ → WaitNode) → List ℕ → Type 0
Owned nodes xs = (t : ℕ) → contains xs t ≡ true → (nodes t).task ≡ t

find_waiter_absent :
    (fuel : ℕ) (nodes : ℕ → WaitNode) (prev p : Option ℕ) (xs : List ℕ) (t : ℕ)
    → IsChain (next_in nodes) p xs
    → Owned nodes xs
    → contains xs t ≡ false
    → find_waiter fuel nodes t prev p ≡ none
unfolding find_waiter
find_waiter_absent zero nodes prev p xs t c o h = refl
find_waiter_absent (suc fuel) nodes prev none xs t c o h = refl
find_waiter_absent (suc fuel) nodes prev (some x) [] t c o h = cc
find_waiter_absent (suc fuel) nodes prev (some x) (y ∷ ys) t c o h =
    let at : x ≡ y = ground arith in
    ground (
      arith,
      o y (ground arith),
      find_waiter_absent fuel nodes (some x) (next_in nodes x) ys t (rw at c.1)
          (λ k m. o k (ground arith)),
    )

-- What the walk of `_remove_task_from_list` finds behind the node `x` lets the list close over `t`.
abbrev Closes : (ℕ → WaitNode) → ℕ → ℕ → List ℕ → Option (Option ℕ × ℕ) → Type 0
Closes nodes t x xs r =
    (c : ℕ) × (r ≡ some (some c, t))
    × (contains (x ∷ xs) c ≡ true)
    × (c ≢ t)
    × (get_last? (x ∷ erase t xs)
        ≡ (if points_to (get_last? (x ∷ xs)) t then some c else get_last? (x ∷ xs)))
    × ((g : ℕ → Option ℕ)
        → g c ≡ next_in nodes t
        → ((y : ℕ) → y ≢ c → y ≢ t → g y ≡ next_in nodes y)
        → IsChain g (some x) (x ∷ erase t xs))

last_elsewhere :
    (x t : ℕ) (ys : List ℕ)
    → contains ys t ≡ false
    → get_last? (x ∷ ys) ≡ (if points_to (get_last? (t ∷ ys)) t then some x else get_last? (t ∷ ys))
last_elsewhere x t [] h = ground arith
last_elsewhere x t (y ∷ ys) h = elim (Bool-cases (points_to (get_last? (y ∷ ys)) t)) [
  | inl e ↦ absurd (by_last (get_last? (y ∷ ys)) refl e)
  | inr e ↦ sym (if_false _ _ e)
]
  where
    by_last : (p : Option ℕ) → get_last? (y ∷ ys) ≡ p → points_to p t ≡ true → ⊥
    by_last none q e = ground arith
    by_last (some l) q e =
        let at : l ≡ t = ground arith in
        ground (arith, get_last?-contains (y ∷ ys) l q, ap (contains (y ∷ ys)) at)

find_waiter-Closes :
    (fuel : ℕ) (nodes : ℕ → WaitNode) (x : ℕ) (xs : List ℕ) (t : ℕ)
    → length xs ≤ fuel
    → IsChain (next_in nodes) (next_in nodes x) xs
    → IsDistinct (x ∷ xs)
    → Owned nodes xs
    → x ≢ t
    → contains xs t ≡ true
    → Closes nodes t x xs (find_waiter fuel nodes t (some x) (next_in nodes x))
unfolding find_waiter
find_waiter-Closes fuel nodes x [] t f c d o ne h = cc
find_waiter-Closes zero nodes x (y ∷ ys) t f c d o ne h = absurd (omega arith)
find_waiter-Closes (suc fuel) nodes x (y ∷ ys) t f c d o ne h = elim (Bool-cases (y == t)) [
  | inl e ↦
      let at : y ≡ t = ground arith in
      let own : (nodes y).task ≡ y = o y (ground arith) in
      (
        x,
        ap (find_waiter (suc fuel) nodes t (some x)) c.0 ∙ ground (arith, own),
        ground arith,
        ne,
        rw e (
            subst
              (λ z.
                get_last? (x ∷ ys)
                ≡ (if points_to (get_last? (y ∷ ys)) z then some x else get_last? (y ∷ ys)))
              at (last_elsewhere x y ys d.1.0)),
        λ g here others. (
          refl,
          rw e (
              rw here (
                IsChain-agree (next_in nodes) g (next_in nodes t) ys
                  (λ z m.
                    others z (λ q. ground (arith, ap (contains ys) q))
                      (λ q. ground (arith, ap (contains ys) q)))
                  (rw at at c.1))),
        ),
      )
  | inr e ↦
      let miss : y ≢ t = ground arith in
      let test : ((nodes y).task == t) ≡ false = ground (arith, o y (ground arith)) in
      let (k, found, among, other, last, closes) =
        find_waiter-Closes fuel nodes y ys t (omega arith) c.1 d.1 (λ z m. o z (ground arith)) miss
          (ground arith) in
      (
        k,
        ap (find_waiter (suc fuel) nodes t (some x)) c.0 ∙ (if_false _ _ test ∙ found),
        ground arith,
        other,
        rw e last,
        λ g here others.
            let same : g x ≡ next_in nodes x =
              others x (λ q. ground (arith, ap (contains (y ∷ ys)) q)) ne in
            (refl, rw e (rw (same, c.0) (closes g here others))),
      )
]

set_link-here : (nodes : ℕ → WaitNode) (c : ℕ) (p : Option ℕ) → next_in (set_link nodes c p) c ≡ p
set_link-here nodes c p = ground arith

set_link-task :
    (nodes : ℕ → WaitNode) (c : ℕ) (p : Option ℕ) (k : ℕ)
    → (set_link nodes c p k).task ≡ (nodes k).task
set_link-task nodes c p k = ground arith

set_link-other :
    (nodes : ℕ → WaitNode) (c : ℕ) (p : Option ℕ) (y : ℕ)
    → y ≢ c
    → next_in (set_link nodes c p) y ≡ next_in nodes y
set_link-other nodes c p y n = ground arith

unlinked-IsWaitList :
    (nodes : ℕ → WaitNode) (w : Waiters) (x : ℕ) (xs : List ℕ) (t : ℕ) (r : Option (Option ℕ × ℕ))
    → IsWaitList nodes w (x ∷ xs)
    → (x == t) ≡ false
    → find_waiter max_tasks nodes t none w.head ≡ r
    → Closes nodes t x xs r
    → let (nodes', w') = remove_task_from_list nodes w t in IsWaitList nodes' w' (erase t (x ∷ xs))
unfolding remove_task_from_list
unlinked-IsWaitList nodes w x xs t r v e walk (c, found, among, other, last, closes) =
    let closed =
      closes (next_in (set_link nodes c (next_in nodes t)))
        (set_link-here nodes c (next_in nodes t))
        (λ y n m. set_link-other nodes c (next_in nodes t) y n) in
    rw (ap (unlink_waiter nodes w) (walk ∙ found)) (record {
      chain =
          subst (λ p. IsChain (next_in (set_link nodes c (next_in nodes t))) p (erase t (x ∷ xs)))
            (sym v.chain.0) (rw e closed);
      tail = rw (e, v.tail) (sym last);
      distinct = erase-IsDistinct t (x ∷ xs) v.distinct;
      short = omega (arith, length-erase-le t (x ∷ xs), v.short);
      owned = λ k m.
          set_link-task nodes c (next_in nodes t) k
          ∙ v.owned k (ground (arith, contains-erase t k (x ∷ xs) v.distinct));
    })

remove-IsWaitList-found :
    (nodes : ℕ → WaitNode) (w : Waiters) (xs : List ℕ) (t : ℕ)
    → IsWaitList nodes w xs
    → contains xs t ≡ true
    → let (nodes', w') = remove_task_from_list nodes w t in IsWaitList nodes' w' (erase t xs)
unfolding remove_task_from_list
remove-IsWaitList-found nodes w [] t v h = cc
remove-IsWaitList-found nodes w (x ∷ xs) t v h = elim (Bool-cases (x == t)) [
  | inl e ↦
      let at : x ≡ t = ground arith in
      let test : ((nodes x).task == t) ≡ true = ground (arith, v.owned x (ground arith)) in
      let hit : find_waiter max_tasks nodes t none (some x) ≡ some (none, x) = if_true _ _ test in
      let found = ap (find_waiter max_tasks nodes t none) v.chain.0 ∙ hit in
      rw (ap (unlink_waiter nodes w) found) (
        rw e (record {
          chain = v.chain.1;
          tail = first_left xs v.distinct v.tail;
          distinct = v.distinct.1;
          short = omega (arith, v.short);
          owned = λ k m. v.owned k (ground arith);
        }))
  | inr e ↦
      let test : ((nodes x).task == t) ≡ false = ground (arith, v.owned x (ground arith)) in
      let closes =
        find_waiter-Closes 57 nodes x xs t (omega (arith, v.short)) v.chain.1 v.distinct
          (λ k m. v.owned k (ground arith)) (ground arith) (ground arith) in
      unlinked-IsWaitList nodes w x xs t _ v e
        (ap (find_waiter max_tasks nodes t none) v.chain.0 ∙ if_false _ _ test) closes
]
  where
    first_left :
        (ys : List ℕ)
        → IsDistinct (x ∷ ys)
        → w.tail ≡ get_last? (x ∷ ys)
        → (if points_to w.tail x then none else w.tail) ≡ get_last? ys
    first_left [] d e = ground arith
    first_left (y ∷ ys) d e = by_last (get_last? (y ∷ ys)) refl
      where
        by_last :
            (p : Option ℕ)
            → get_last? (y ∷ ys) ≡ p
            → (if points_to w.tail x then none else w.tail) ≡ get_last? (y ∷ ys)
        by_last none q = ground arith
        by_last (some l) q =
            let apart : l ≢ x = λ at.
              ground (arith, get_last?-contains (y ∷ ys) l q, ap (contains (y ∷ ys)) at, d.0) in
            ground (arith, e, q)

-- `_remove_task_from_list` on a well formed list takes exactly the given task out, if it waits
-- there, and leaves the others in their order.
pub remove_task_from_list-IsWaitList :
    (nodes : ℕ → WaitNode) (w : Waiters) (xs : List ℕ) (t : ℕ)
    → IsWaitList nodes w xs
    → let (nodes', w') = remove_task_from_list nodes w t in IsWaitList nodes' w' (erase t xs)
unfolding remove_task_from_list
remove_task_from_list-IsWaitList nodes w xs t v = elim (Bool-cases (contains xs t)) [
  | inl e ↦ remove-IsWaitList-found nodes w xs t v e
  | inr e ↦
      rw
        (ap (unlink_waiter nodes w)
          (find_waiter_absent max_tasks nodes none w.head xs t v.chain v.owned e))
        (rw (erase_absent t xs e) v)
]
