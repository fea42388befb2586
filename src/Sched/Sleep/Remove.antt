-- ===== src/Sched/Sleep/Remove.antt =====
-- `_remove_from_sleep_list` on a well-formed list.
use so_rtos.Base.{
  ℕ, zero, suc, ◌≡◌, ◌≢◌, refl, ◌==◌, ◌<◌, ◌≤◌, arith, true, false, Option, none, some, List, [],
  ◌∷◌, Bool-cases, inl, inr, points_to, ap, ◌∙◌, sym, subst,
}
use so_rtos.Chain.{
  length, contains, erase, IsDistinct, IsChain, IsChain-agree, IsChain-absent, erase_absent, head?,
  head?-IsChain, erase-IsDistinct, length-erase-le,
}
use so_rtos.Task.{max_tasks}
use so_rtos.Sched.{Sched}
use so_rtos.Sched.Sleep.{find_prev, unlink, remove_from_sleep_list, next_of, set_next}

-- The sleep list holds exactly `xs`, no task twice, within the fuel of the loops.
pub record IsSleepList (s : Sched) (xs : List ℕ) : Type 0 where
  pub chain : IsChain (next_of s) s.sleep_list xs
  pub distinct : IsDistinct xs
  pub short : length xs ≤ max_tasks

-- `s'` is `s` but for the head of the sleep list and the links.
pub record Relinks (s s' : Sched) : Type 0 where
  pub frame : s' ≡ record s { task_of = s'.task_of; sleep_list = s'.sleep_list }
  pub task : (k : ℕ) → s'.task_of k ≡ set_next (next_of s' k) (s.task_of k)

points_to-head? : (xs : List ℕ) (t : ℕ) → contains xs t ≡ false → points_to (head? xs) t ≡ false
points_to-head? [] t h = refl
points_to-head? (x ∷ xs) t h = ground arith

find_prev_absent :
    (fuel : ℕ) (s : Sched) (p : Option ℕ) (xs : List ℕ) (t : ℕ)
    → IsChain (next_of s) p xs
    → contains xs t ≡ false
    → find_prev fuel s p t ≡ none
unfolding find_prev
find_prev_absent zero s p xs t c h = refl
find_prev_absent (suc fuel) s none xs t c h = refl
find_prev_absent (suc fuel) s (some x) [] t c h = cc
find_prev_absent (suc fuel) s (some x) (y ∷ ys) t c h =
    let at : x ≡ y = ground arith in
    let rest : IsChain (next_of s) (next_of s x) ys = rw at c.1 in
    ground (
      arith,
      head?-IsChain (next_of s) (next_of s x) ys rest,
      points_to-head? ys t,
      find_prev_absent fuel s (next_of s x) ys t rest,
    )

-- What the loop finds lets the list close over `t`.
abbrev Closes : Sched → ℕ → ℕ → List ℕ → Option ℕ → Type 0
Closes s t x xs r =
    (c : ℕ) × (r ≡ some c)
    × (contains (x ∷ xs) c ≡ true)
    × (c ≢ t)
    × ((g : ℕ → Option ℕ)
        → g c ≡ next_of s t
        → ((y : ℕ) → y ≢ c → y ≢ t → g y ≡ next_of s y)
        → IsChain g (some x) (x ∷ erase t xs))

find_prev-Closes :
    (fuel : ℕ) (s : Sched) (x : ℕ) (xs : List ℕ) (t : ℕ)
    → length xs < fuel
    → IsChain (next_of s) (some x) (x ∷ xs)
    → IsDistinct (x ∷ xs)
    → x ≢ t
    → contains xs t ≡ true
    → Closes s t x xs (find_prev fuel s (some x) t)
unfolding find_prev
find_prev-Closes zero s x xs t f c d ne h = absurd (omega arith)
find_prev-Closes (suc fuel) s x [] t f c d ne h = cc
find_prev-Closes (suc fuel) s x (y ∷ ys) t f c d ne h = elim (Bool-cases (y == t)) [
  | inl e ↦
      let at : y ≡ t = ground arith in
      (
        x,
        ground (arith, c.1.0),
        ground arith,
        ne,
        λ g here others. (
          refl,
          ground (
            arith,
            IsChain-agree (next_of s) g (next_of s t) ys
                (λ z m.
                  others z (λ q. ground (arith, ap (contains ys) q))
                    (λ q. ground (arith, ap (contains ys) q)))
                (rw at at c.1.1),
          ),
        ),
      )
  | inr e ↦
      let miss : y ≢ t = ground arith in
      let (k, found, among, other, closes) =
        find_prev-Closes fuel s y ys t (omega arith) (rw c.1.0 at c.1) d.1 miss (ground arith) in
      (
        k,
        ground (arith, c.1.0),
        ground arith,
        other,
        λ g here others.
            let same : g x ≡ next_of s x =
              others x (λ q. ground (arith, ap (contains (y ∷ ys)) q)) ne in
            (refl, rw (same, c.1.0) (ground (arith, closes g here others))),
      )
]

remove_from_sleep_list-Relinks : (s : Sched) (t : ℕ) → Relinks s (remove_from_sleep_list s t)
unfolding remove_from_sleep_list
remove_from_sleep_list-Relinks s t = elim (Bool-cases (points_to s.sleep_list t)) [
  | inl e ↦ rw (e, remove_from_sleep_list) (record { frame = refl; task = λ k. ground arith })
  | inr e ↦ rw (e, remove_from_sleep_list) (unlinked (find_prev max_tasks s s.sleep_list t))
]
  where
    unlinked : (r : Option ℕ) → Relinks s (unlink s t r)
    unlinked none = record { frame = refl; task = λ k. refl }
    unlinked (some c) = record { frame = refl; task = λ k. ground arith }

remove_behind :
    (s : Sched) (t : ℕ) (r : Option ℕ)
    → points_to s.sleep_list t ≡ false
    → find_prev max_tasks s s.sleep_list t ≡ r
    → remove_from_sleep_list s t ≡ unlink s t r
unfolding remove_from_sleep_list
remove_behind s t r p q = rw (p, q, remove_from_sleep_list)

remove-IsChain :
    (s : Sched) (p : Option ℕ) (xs : List ℕ) (t : ℕ)
    → s.sleep_list ≡ p
    → IsChain (next_of s) p xs
    → IsDistinct xs
    → length xs ≤ max_tasks
    → let s' = remove_from_sleep_list s t in IsChain (next_of s') s'.sleep_list (erase t xs)
unfolding remove_from_sleep_list
remove-IsChain s p [] t e c d f = ground (arith, find_prev_absent max_tasks s p [] t c)
remove-IsChain s p (x ∷ xs) t e c d f = elim (Bool-cases (x == t)) [
  | inl hit ↦
      let at : x ≡ t = ground arith in
      let head : points_to s.sleep_list t ≡ true = ground arith in
      rw (head, remove_from_sleep_list, hit)
        (IsChain-absent (next_of s) _ (next_of s t) t xs (rw at at d.0) (λ y ne. ground arith)
          (rw at at c.1))
  | inr miss ↦
      let head : points_to s.sleep_list t ≡ false = ground arith in
      let here : s.sleep_list ≡ some x = e ∙ c.0 in
      elim (Bool-cases (contains xs t)) [
        | inl among ↦
            let (k, found, _, other, closes) =
              find_prev-Closes max_tasks s x xs t (omega arith) (refl, c.1) d (ground arith)
                among in
            let found' = ap (λ q. find_prev max_tasks s q t) here ∙ found in
            let closed =
              closes (next_of (unlink s t (some k))) (ground arith) (λ y ne nt. ground arith) in
            rw (remove_behind s t (some k) head found') (
              subst (λ q. IsChain (next_of (unlink s t (some k))) q (erase t (x ∷ xs))) (sym here)
                (rw miss closed))
        | inr absent ↦
            let none_found =
              find_prev_absent max_tasks s s.sleep_list (x ∷ xs) t (here, c.1) (ground arith) in
            rw (remove_behind s t none head none_found, erase_absent t (x ∷ xs) (ground arith))
              (here, c.1)
      ]
]

-- `_remove_from_sleep_list` on a well formed sleep list takes exactly the given task out of it, if
-- it is there, and changes nothing but links.
pub remove_from_sleep_list-IsSleepList :
    (s : Sched) (xs : List ℕ) (t : ℕ)
    → IsSleepList s xs
    → IsSleepList (remove_from_sleep_list s t) (erase t xs) × Relinks s (remove_from_sleep_list s t)
remove_from_sleep_list-IsSleepList s xs t v = (
  record {
    chain = remove-IsChain s s.sleep_list xs t refl v.chain v.distinct v.short;
    distinct = erase-IsDistinct t xs v.distinct;
    short = omega (arith, length-erase-le t xs, v.short);
  },
  remove_from_sleep_list-Relinks s t,
)
