-- ===== src/Timer/Order.antt =====
-- kernel/src/timer.c: inserting a timer into the list.
use so_rtos.Base.{
  ℕ, zero, suc, ◌≡◌, ◌≢◌, ◌≤◌, refl, ◌==◌, arith, true, false, Option, none, some, List, [], ◌∷◌,
  Bool-cases, inl, inr, ap, sym, subst, ◌∙◌, ◌||◌, if◌then◌else◌, if_true, if_false, signed_lt32,
}
use so_rtos.Chain.{
  length, contains, IsDistinct, IsChain, IsChain-agree, IsChain-absent, IsChain-cons,
}
use so_rtos.Timer.{
  SwTimer, Timers, change, next_timer, expiry, set_next, write_link, find_place, timer_insert,
}

-- The list with `t` before the first timer that expires after it.
module _ (m : Timers) (t : ℕ) where
  unfoldable pub placed : List ℕ → List ℕ
  placed [] = t ∷ []
  placed (x ∷ xs) = if signed_lt32 (expiry m t) (expiry m x) then t ∷ x ∷ xs else x ∷ placed xs

-- The list holds exactly the timers `xs`, no timer twice, within the given length.
pub record IsTimerList (fuel : ℕ) (m : Timers) (xs : List ℕ) : Type 0 where
  pub chain : IsChain (next_timer m) m.timer_list_head xs
  pub distinct : IsDistinct xs
  pub short : length xs ≤ fuel

contains-placed :
    (m : Timers) (t : ℕ) (xs : List ℕ) (k : ℕ)
    → contains (placed m t xs) k ≡ (t == k || contains xs k)
unfolding placed
contains-placed m t [] k = refl
contains-placed m t (x ∷ xs) k = ground (arith, contains-placed m t xs k)

placed-IsDistinct :
    (m : Timers) (t : ℕ) (xs : List ℕ)
    → contains xs t ≡ false
    → IsDistinct xs
    → IsDistinct (placed m t xs)
unfolding placed
placed-IsDistinct m t [] h d = (refl, tt)
placed-IsDistinct m t (x ∷ xs) h d =
    ground (arith, placed-IsDistinct m t xs, contains-placed m t xs x)

length-placed : (m : Timers) (t : ℕ) (xs : List ℕ) → length (placed m t xs) ≡ suc (length xs)
unfolding placed
length-placed m t [] = refl
length-placed m t (x ∷ xs) = ground (arith, length-placed m t xs)

-- What the loop of `timer_insert` finds behind the timer `x` opens the list for `t`.
abbrev Opens : Timers → ℕ → ℕ → List ℕ → Option ℕ × Option ℕ → Type 0
Opens m t x xs r =
    (c : ℕ) × (r.0 ≡ some c)
    × (contains (x ∷ xs) c ≡ true)
    × ((g : ℕ → Option ℕ)
        → g c ≡ some t
        → g t ≡ r.1
        → ((y : ℕ) → y ≢ c → y ≢ t → g y ≡ next_timer m y)
        → IsChain g (some x) (x ∷ placed m t xs))

find_place-Opens :
    (fuel : ℕ) (m : Timers) (t x : ℕ) (xs : List ℕ)
    → length xs ≤ fuel
    → IsChain (next_timer m) (next_timer m x) xs
    → IsDistinct (x ∷ xs)
    → contains (x ∷ xs) t ≡ false
    → Opens m t x xs (find_place fuel m t (some x) (next_timer m x))
unfolding find_place placed
find_place-Opens zero m t x [] f c d out =
    (x, refl, ground arith, λ g here end others. (refl, (here, end ∙ c)))
find_place-Opens zero m t x (y ∷ ys) f c d out = absurd (omega arith)
find_place-Opens (suc fuel) m t x [] f c d out =
    rw (ap (find_place (suc fuel) m t (some x)) c)
      (x, refl, ground arith, λ g here end others. (refl, (here, end)))
find_place-Opens (suc fuel) m t x (y ∷ ys) f c d out =
    rw (ap (find_place (suc fuel) m t (some x)) c.0)
      (elim (Bool-cases (signed_lt32 (expiry m t) (expiry m y))) [
        | inl e ↦ rw e (
          x,
          refl,
          ground arith,
          λ g here end others.
              let same : g y ≡ next_timer m y =
                others y (λ q. ground (arith, d.0, ap (contains (y ∷ ys)) q)) (λ q. ground arith) in
              (
                refl,
                (
                  here,
                  (
                    end,
                    rw same (
                        IsChain-agree (next_timer m) g (next_timer m y) ys
                          (λ z h.
                            others z (λ q. ground (arith, ap (contains (y ∷ ys)) q))
                              (λ q. ground (arith, ap (contains (y ∷ ys)) q)))
                          c.1),
                  ),
                ),
              ),
        )
        | inr e ↦
            let (k, found, among, opens) =
              find_place-Opens fuel m t y ys (omega arith) c.1 d.1 (ground arith) in
            rw e (
              k,
              found,
              ground arith,
              λ g here end others.
                  let same : g x ≡ next_timer m x =
                    others x (λ q. ground (arith, ap (contains (y ∷ ys)) q)) (λ q. ground arith) in
                  (refl, rw (same, c.0) (opens g here end others)),
            )
      ])

-- The write of `timer_insert` through the link that the loop found.
insert_at : Timers → ℕ → Option ℕ × Option ℕ → Timers
insert_at m t (prev, p) = write_link (change m t (set_next p)) prev (some t)

-- A change of a link leaves all else of every timer.
change-kept :
    (m : Timers) (t : ℕ) (p : Option ℕ) (k : ℕ)
    → let m' = change m t (set_next p) in m'.timer_of k ≡ set_next (next_timer m' k) (m.timer_of k)
change-kept m t p k =
    let y = m.timer_of k in
    let links = λ (x : SwTimer). x ≡ set_next x.next y in
    elim (Bool-cases (k == t)) [
      | inl e ↦
          let at : t ≡ k = ground (arith, e) in
          let here = ap (λ j. set_next p (m.timer_of j)) at in
          subst links (sym (if_true (set_next p (m.timer_of t)) y e ∙ here)) refl
      | inr e ↦ subst links (sym (if_false (set_next p (m.timer_of t)) y e)) refl
    ]

insert_at-kept :
    (m : Timers) (t : ℕ) (prev p : Option ℕ) (k : ℕ)
    → let m' = insert_at m t (prev, p) in m'.timer_of k ≡ set_next (next_timer m' k) (m.timer_of k)
unfolding insert_at
insert_at-kept m t none p k = change-kept m t p k
insert_at-kept m t (some c) p k =
    change-kept (change m t (set_next p)) c (some t) k
    ∙ ap (set_next (next_timer (insert_at m t (some c, p)) k)) (change-kept m t p k)

insert_at-task :
    (m : Timers) (t : ℕ) (prev p : Option ℕ)
    → (insert_at m t (prev, p)).timer_task_id ≡ m.timer_task_id
unfolding insert_at
insert_at-task m t none p = refl
insert_at-task m t (some c) p = refl

insert_at-others :
    (m : Timers) (t c : ℕ) (p : Option ℕ)
    → c ≢ t
    → let g = next_timer (insert_at m t (some c, p)) in
      (g c ≡ some t) × (g t ≡ p) × ((y : ℕ) → y ≢ c → y ≢ t → g y ≡ next_timer m y)
unfolding insert_at
insert_at-others m t c p ne = (ground arith, ground arith, λ y a b. ground arith)

inserts :
    (fuel : ℕ) (m : Timers) (t : ℕ) {p : Option ℕ}
    → m.timer_list_head ≡ p
    → timer_insert fuel m t ≡ insert_at m t (find_place fuel m t none p)
unfolding timer_insert insert_at
inserts fuel m t e = ap (λ p. insert_at m t (find_place fuel m t none p)) e

first-IsChain :
    (m : Timers) (t x : ℕ) (xs : List ℕ)
    → IsChain (next_timer m) (next_timer m x) xs
    → contains (x ∷ xs) t ≡ false
    → let m' = insert_at m t (none, some x) in
      IsChain (next_timer m') m'.timer_list_head (t ∷ x ∷ xs)
unfolding insert_at
first-IsChain m t x xs c out =
    let g = next_timer (change m t (set_next (some x))) in
    IsChain-cons g t (some x) (x ∷ xs) (ground arith)
      (IsChain-absent (next_timer m) g (some x) t (x ∷ xs) out (λ y n. ground arith) (refl, c))

inserted-IsChain :
    (fuel : ℕ) (m : Timers) (t : ℕ) (xs : List ℕ)
    → IsTimerList fuel m xs
    → contains xs t ≡ false
    → let m' = timer_insert fuel m t in IsChain (next_timer m') m'.timer_list_head (placed m t xs)
unfolding placed find_place insert_at
inserted-IsChain zero m t [] v out = rw (inserts zero m t v.chain) (refl, ground arith)
inserted-IsChain (suc fuel) m t [] v out = rw (inserts (suc fuel) m t v.chain) (refl, ground arith)
inserted-IsChain zero m t (x ∷ xs) v out = absurd (omega (arith, v.short))
inserted-IsChain (suc fuel) m t (x ∷ xs) v out =
    rw (inserts (suc fuel) m t v.chain.0)
      (elim (Bool-cases (signed_lt32 (expiry m t) (expiry m x))) [
        | inl e ↦ rw e (first-IsChain m t x xs v.chain.1 out)
        | inr e ↦ rw e (
            opened
              (find_place-Opens fuel m t x xs (omega (arith, v.short)) v.chain.1 v.distinct out))
      ])
  where
    opened :
        {r : Option ℕ × Option ℕ}
        → Opens m t x xs r
        → let m' = insert_at m t r in IsChain (next_timer m') m'.timer_list_head (x ∷ placed m t xs)
    opened {r} (c, found, among, opens) =
        let ne : c ≢ t = λ q. ground (arith, out, ap (contains (x ∷ xs)) q) in
        let (a, b, o) = insert_at-others m t c r.1 ne in
        subst
          (λ q.
            let m' = insert_at m t q in
            IsChain (next_timer m') m'.timer_list_head (x ∷ placed m t xs))
          (sym (ap (λ q. (q, r.1)) found))
          (v.chain.0, (opens (next_timer (insert_at m t (some c, r.1))) a b o).1)

-- `timer_insert` of a timer that is not on the well formed list puts it before the first timer
-- that expires after it, by the difference modulo 2^32, or at the end, and changes nothing but
-- links: every timer is as before in all its other fields, and so is the ID of the timer task.
pub timer_insert-IsTimerList :
    (fuel : ℕ) (m : Timers) (t : ℕ) (xs : List ℕ)
    → IsTimerList fuel m xs
    → contains xs t ≡ false
    → let m' = timer_insert fuel m t in
      IsTimerList (suc fuel) m' (placed m t xs)
      × ((k : ℕ) → contains (placed m t xs) k ≡ (t == k || contains xs k))
      × ((k : ℕ) → m'.timer_of k ≡ record (m.timer_of k) { next = next_timer m' k })
      × (m'.timer_task_id ≡ m.timer_task_id)
timer_insert-IsTimerList fuel m t xs v out =
    let (prev, p) = find_place fuel m t none m.timer_list_head in
    (
      record {
        chain = inserted-IsChain fuel m t xs v out;
        distinct = placed-IsDistinct m t xs out v.distinct;
        short = omega (arith, length-placed m t xs, v.short);
      },
      contains-placed m t xs,
      λ k. rw (inserts fuel m t refl) (insert_at-kept m t prev p k),
      rw (inserts fuel m t refl) (insert_at-task m t prev p),
    )
