-- ===== src/Sched/Sleep/Insert.antt =====
-- `_insert_into_sleep_list` on a well-formed list: the list that results, and that it is sorted.
use so_rtos.Base.{
  ℕ, zero, suc, ◌≡◌, ◌≢◌, refl, ◌==◌, ◌<◌, ◌≤◌, arith, true, false, ◌||◌, ltb, if◌then◌else◌,
  Option, some, List, [], ◌∷◌, Bool-cases, Option-cases, inl, inr, ap, ◌∙◌, sym, subst,
}
use so_rtos.Chain.{
  length, contains, IsDistinct, IsChain, IsChain-agree, IsChain-absent, IsChain-cons,
}
use so_rtos.Task.{max_tasks}
use so_rtos.Sched.{Sched, modify}
use so_rtos.Sched.Sleep.{
  find_slot, link_behind, insert_from_head, insert_into_sleep_list, next_of, set_next, wake_tick,
}
use so_rtos.Sched.Sleep.Remove.{IsSleepList, Relinks}

-- Earliest first.
abbrev pub IsSorted : (ℕ → ℕ) → List ℕ → Type 0
IsSorted wake [] = Unit {0}
IsSorted wake (x ∷ []) = Unit {0}
IsSorted wake (x ∷ y ∷ ys) = (wake x ≤ wake y) × IsSorted wake (y ∷ ys)

-- Where the task goes: before the first later head, or else behind all that are earlier.
module _ (wake : ℕ → ℕ) (t : ℕ) where
  unfoldable pub place_behind : List ℕ → List ℕ
  place_behind [] = t ∷ []
  place_behind (y ∷ ys) = if ltb (wake y) (wake t) then y ∷ place_behind ys else t ∷ y ∷ ys

  unfoldable pub place : List ℕ → List ℕ
  unfolding place_behind
  place [] = t ∷ []
  place (x ∷ xs) = if ltb (wake t) (wake x) then t ∷ x ∷ xs else x ∷ place_behind xs

  contains-place_behind :
      (xs : List ℕ) (y : ℕ) → contains (place_behind xs) y ≡ (t == y || contains xs y)
  unfolding place_behind
  contains-place_behind [] y = ground arith
  contains-place_behind (x ∷ xs) y = ground (arith, contains-place_behind xs y)

  pub contains-place : (xs : List ℕ) (y : ℕ) → contains (place xs) y ≡ (t == y || contains xs y)
  unfolding place
  contains-place [] y = ground arith
  contains-place (x ∷ xs) y = ground (arith, contains-place_behind xs y)

  length-place_behind : (xs : List ℕ) → length (place_behind xs) ≡ suc (length xs)
  unfolding place_behind
  length-place_behind [] = refl
  length-place_behind (x ∷ xs) = ground (arith, length-place_behind xs)

  pub length-place : (xs : List ℕ) → length (place xs) ≡ suc (length xs)
  unfolding place
  length-place [] = refl
  length-place (x ∷ xs) = ground (arith, length-place_behind xs)

  place_behind-IsDistinct :
      (xs : List ℕ) → contains xs t ≡ false → IsDistinct xs → IsDistinct (place_behind xs)
  unfolding place_behind
  place_behind-IsDistinct [] h d = (refl, tt)
  place_behind-IsDistinct (x ∷ xs) h d =
      ground (arith, place_behind-IsDistinct xs, contains-place_behind xs x)

  pub place-IsDistinct :
      (xs : List ℕ) → contains xs t ≡ false → IsDistinct xs → IsDistinct (place xs)
  unfolding place
  place-IsDistinct [] h d = (refl, tt)
  place-IsDistinct (x ∷ xs) h d =
      ground (arith, place_behind-IsDistinct xs, contains-place_behind xs x)

  place_behind-IsSorted :
      (x : ℕ) (xs : List ℕ)
      → wake x ≤ wake t
      → IsSorted wake (x ∷ xs)
      → IsSorted wake (x ∷ place_behind xs)
  unfolding place_behind
  place_behind-IsSorted x [] h s = (h, tt)
  place_behind-IsSorted x (y ∷ ys) h s = elim (Bool-cases (ltb (wake y) (wake t))) [
    | inl e ↦ rw e (s.0, place_behind-IsSorted y ys (ground arith) s.1)
    | inr e ↦ rw e (h, (ground arith, s.1))
  ]

  pub place-IsSorted : (xs : List ℕ) → IsSorted wake xs → IsSorted wake (place xs)
  unfolding place
  place-IsSorted [] s = tt
  place-IsSorted (x ∷ xs) s = elim (Bool-cases (ltb (wake t) (wake x))) [
    | inl e ↦ rw e (ground arith, s)
    | inr e ↦ rw e (place_behind-IsSorted x xs (ground arith) s)
  ]

-- The slot that the loop finds is in the list, and linking behind it places the task.
abbrev Slots : Sched → ℕ → ℕ → List ℕ → ℕ → Type 0
Slots s t x xs k =
    (contains (x ∷ xs) k ≡ true)
    × ((g : ℕ → Option ℕ)
        → g k ≡ some t
        → g t ≡ next_of s k
        → ((y : ℕ) → y ≢ k → y ≢ t → g y ≡ next_of s y)
        → IsChain g (some x) (x ∷ place_behind (wake_tick s) t xs))

find_slot-Slots :
    (fuel : ℕ) (s : Sched) (x : ℕ) (xs : List ℕ) (t : ℕ)
    → length xs < fuel
    → IsChain (next_of s) (some x) (x ∷ xs)
    → IsDistinct (x ∷ xs)
    → contains (x ∷ xs) t ≡ false
    → Slots s t x xs (find_slot fuel s x t)
unfolding find_slot place_behind
find_slot-Slots zero s x xs t f c d h = absurd (omega arith)
find_slot-Slots (suc fuel) s x [] t f c d h =
    rw (c.1, find_slot) (ground arith, λ g here new others. (refl, (here, ground (arith, c.1))))
find_slot-Slots (suc fuel) s x (y ∷ ys) t f c d h =
    elim (Bool-cases (ltb (wake_tick s y) (wake_tick s t))) [
      | inl e ↦
          let (among, placed) =
            find_slot-Slots fuel s y ys t (omega arith) (rw c.1.0 at c.1) d.1 (ground arith) in
          rw (c.1.0, find_slot)
            (rw (e, find_slot)
              (
                ground (arith, among),
                λ g here new others.
                    let same : g x ≡ next_of s x =
                      others x (λ q. ground (arith, ap (contains (y ∷ ys)) q))
                        (λ q. ground arith) in
                    (refl, rw (same, c.1.0) (placed g here new others)),
              ))
      | inr e ↦
          rw (c.1.0, find_slot)
            (rw (e, find_slot)
              (
                ground arith,
                λ g here new others. (
                  refl,
                  subst (λ q. IsChain g q (t ∷ y ∷ ys)) (sym here)
                      (IsChain-cons g t (some y) (y ∷ ys) (new ∙ c.1.0) (
                        IsChain-agree (next_of s) g (some y) (y ∷ ys)
                          (λ z m.
                            others z (λ q. ground (arith, ap (contains (y ∷ ys)) q))
                              (λ q. ground (arith, ap (contains (y ∷ ys)) q)))
                          (refl, c.1.1))),
                ),
              ))
    ]

insert_at_head :
    (s : Sched) (t h : ℕ)
    → s.sleep_list ≡ some h
    → ltb (wake_tick s t) (wake_tick s h) ≡ true
    → insert_into_sleep_list s t ≡ record (modify s t (set_next (some h))) { sleep_list = some t }
unfolding insert_into_sleep_list
insert_at_head s t h e p = ap (insert_from_head s t) e ∙ rw (p, insert_from_head)

insert_behind :
    (s : Sched) (t h : ℕ)
    → s.sleep_list ≡ some h
    → ltb (wake_tick s t) (wake_tick s h) ≡ false
    → insert_into_sleep_list s t ≡ link_behind s (find_slot max_tasks s h t) t
unfolding insert_into_sleep_list
insert_behind s t h e p = ap (insert_from_head s t) e ∙ rw (p, insert_from_head)

insert-IsChain :
    (s : Sched) (xs : List ℕ) (t : ℕ)
    → IsSleepList s xs
    → contains xs t ≡ false
    → let s' = insert_into_sleep_list s t in
      IsChain (next_of s') s'.sleep_list (place (wake_tick s) t xs)
unfolding insert_into_sleep_list place
insert-IsChain s [] t v h = rw (v.chain, insert_into_sleep_list) (refl, ground arith)
insert-IsChain s (x ∷ xs) t v h = elim (Bool-cases (ltb (wake_tick s t) (wake_tick s x))) [
  | inl e ↦
      let s' = record (modify s t (set_next (some x))) { sleep_list = some t } in
      let old =
        IsChain-absent (next_of s) (next_of s') (some x) t (x ∷ xs) h (λ y ne. ground arith)
          (refl, v.chain.1) in
      rw (insert_at_head s t x v.chain.0 e, e)
        (IsChain-cons (next_of s') t (some x) (x ∷ xs) (ground arith) old)
  | inr e ↦
      let k = find_slot max_tasks s x t in
      let s' = link_behind s k t in
      let (among, placed) =
        find_slot-Slots max_tasks s x xs t v.short (refl, v.chain.1) v.distinct h in
      let other : t ≢ k = λ q. ground (arith, ap (contains (x ∷ xs)) q) in
      rw (insert_behind s t x v.chain.0 e, e)
        (subst (λ q. IsChain (next_of s') q (x ∷ place_behind (wake_tick s) t xs)) (sym v.chain.0)
          (placed (next_of s') (ground arith) (ground arith) (λ y ne nt. ground arith)))
]

insert-Relinks : (s : Sched) (t : ℕ) → Relinks s (insert_into_sleep_list s t)
unfolding insert_into_sleep_list
insert-Relinks s t = elim (Option-cases s.sleep_list) [
  | inl e ↦ rw (e, insert_into_sleep_list) (record { frame = refl; task = λ k. ground arith })
  | inr (h, e) ↦ elim (Bool-cases (ltb (wake_tick s t) (wake_tick s h))) [
    | inl p ↦ rw (insert_at_head s t h e p) (record { frame = refl; task = λ k. ground arith })
    | inr p ↦ rw (insert_behind s t h e p) (record { frame = refl; task = λ k. ground arith })
  ]
]

-- `_insert_into_sleep_list` adds exactly the task, at its place in the order of wake-up ticks, and
-- changes nothing but links.
pub insert_into_sleep_list-IsSleepList :
    (s : Sched) (xs : List ℕ) (t : ℕ)
    → IsSleepList s xs
    → length xs < max_tasks
    → contains xs t ≡ false
    → IsSleepList (insert_into_sleep_list s t) (place (wake_tick s) t xs)
      × Relinks s (insert_into_sleep_list s t)
insert_into_sleep_list-IsSleepList s xs t v room out = (
  record {
    chain = insert-IsChain s xs t v out;
    distinct = place-IsDistinct (wake_tick s) t xs out v.distinct;
    short = omega (arith, length-place (wake_tick s) t xs, room);
  },
  insert-Relinks s t,
)

IsSorted-agree : (f g : ℕ → ℕ) (xs : List ℕ) → ((k : ℕ) → g k ≡ f k) → IsSorted f xs → IsSorted g xs
IsSorted-agree f g [] h s = tt
IsSorted-agree f g (x ∷ []) h s = tt
IsSorted-agree f g (x ∷ y ∷ ys) h s =
    (omega (arith, h x, h y, s.0), IsSorted-agree f g (y ∷ ys) h s.1)

-- On a well formed sleep list with room, in order of wake-up ticks, `_insert_into_sleep_list` of a
-- task that is not on it leaves exactly the old sleepers and the task, again in order.
pub insert_into_sleep_list-IsSorted :
    (s : Sched) (xs : List ℕ) (t : ℕ)
    → IsSleepList s xs
    → length xs < max_tasks
    → contains xs t ≡ false
    → IsSorted (wake_tick s) xs
    → let s' = insert_into_sleep_list s t in
      (ys : List ℕ) × IsSleepList s' ys
      × IsSorted (wake_tick s') ys
      × ((k : ℕ) → contains ys k ≡ (t == k || contains xs k))
insert_into_sleep_list-IsSorted s xs t v room out sorted =
    let (list, r) = insert_into_sleep_list-IsSleepList s xs t v room out in
    let s' = insert_into_sleep_list s t in
    (
      place (wake_tick s) t xs,
      list,
      IsSorted-agree (wake_tick s) (wake_tick s') _ (λ k. ap (λ u. u.sleep_until_tick) (r.task k))
          (place-IsSorted (wake_tick s) t xs sorted),
      contains-place (wake_tick s) t xs,
    )
