-- ===== src/Sched/Create/Ids.antt =====
-- kernel/src/scheduler.c: the search for a free task ID, and why there is one.
use so_rtos.Base.{
  ℕ, zero, suc, ◌≡◌, ◌<◌, ◌≤◌, refl, arith, true, false, none, some, List, [], ◌∷◌, sym, ◌∙◌, ◌+◌,
  Bool-cases, Option-cases, inl, inr, ◌==◌, if◌then◌else◌, if_true, if_false,
}
use so_rtos.Chain.{length, contains, IsDistinct}
use so_rtos.Task.{max_tasks}
use so_rtos.Sched.{Sched}
use so_rtos.Sched.Block.{is_id_used, mark_id}
use so_rtos.Sched.Invariant.{IsValid, is_live, state_of}
use so_rtos.Sched.Invariant.Room.{list_room}
use so_rtos.Sched.Collect.Pool.{IsNamed, IsId}
use so_rtos.Sched.Create.{first_free_id}

first_free_id-none :
    (rounds : ℕ) (s : Sched) (id j : ℕ)
    → first_free_id rounds s id ≡ none
    → id ≤ j
    → j < id + rounds
    → is_id_used s j ≡ true
unfolding first_free_id
first_free_id-none zero s id j e low high = absurd (omega arith)
first_free_id-none (suc rounds) s id j e low high = elim (Bool-cases (is_id_used s id)) [
  | inl u ↦ elim (Bool-cases (j == id)) [
    | inl q ↦ let at : j ≡ id = ground arith in rw at u
    | inr q ↦
        first_free_id-none rounds s (suc id) j (sym (if_true _ _ u) ∙ e) (ground arith)
          (omega arith)
  ]
  | inr u ↦ absurd (ground (arith, sym (if_false _ _ u) ∙ e))
]

pub first_free_id-some :
    (rounds : ℕ) (s : Sched) (id j : ℕ)
    → first_free_id rounds s id ≡ some j
    → (is_id_used s j ≡ false) × (id ≤ j) × (j < id + rounds)
unfolding first_free_id
first_free_id-some zero s id j e = cc
first_free_id-some (suc rounds) s id j e = elim (Bool-cases (is_id_used s id)) [
  | inl u ↦
      let (free, low, high) = first_free_id-some rounds s (suc id) j (sym (if_true _ _ u) ∙ e) in
      (free, omega arith, omega arith)
  | inr u ↦
      let at : id ≡ j = ground (arith, sym (if_false _ _ u) ∙ e) in
      (rw at at u, omega arith, omega arith)
]

-- The tasks that have the first `n` IDs.
Roster : Sched → ℕ → Type 0
Roster s n =
    (xs : List ℕ) × (length xs ≡ n)
    × IsDistinct xs
    × ((u : ℕ)
        → contains xs u ≡ true
        → (is_live (state_of s u) ≡ true) × ((s.task_of u).task_id ≤ n))

roster :
    (s : Sched) (n : ℕ)
    → IsNamed s
    → n ≤ max_tasks
    → ((j : ℕ) → 0 < j → j ≤ n → is_id_used s j ≡ true)
    → Roster s n
unfolding Roster
roster s zero v small used = ([], refl, tt, λ u m. cc)
roster s (suc n) v small used =
    let (xs, size, distinct, low) = roster s n v (omega arith) (λ j p q. used j p (omega arith)) in
    let (t, live, is) =
      v.owner (suc n) (omega arith, small) (used (suc n) (omega arith) (omega arith)) in
    (
      t ∷ xs,
      omega arith,
      (ground (arith, low t), distinct),
      λ u m. elim (Bool-cases (t == u)) [
        | inl e ↦ let at : t ≡ u = ground arith in rw (sym at) (live, omega arith)
        | inr e ↦ let (l, h) = low u (ground arith) in (l, omega arith)
      ],
    )

-- While a task of the pool is not live, an ID is free, and the search finds one.
pub first_free_id-found :
    (base : ℕ) (s : Sched) (ys : List ℕ) (t : ℕ)
    → IsValid base s ys
    → IsNamed s
    → t < max_tasks
    → is_live (state_of s t) ≡ false
    → (id : ℕ) × (first_free_id max_tasks s 1 ≡ some id) × IsId id × (is_id_used s id ≡ false)
unfolding Roster
first_free_id-found base s ys t valid v own dead =
    elim (Option-cases (first_free_id max_tasks s 1)) [
      | inl e ↦
          let (xs, size, distinct, low) =
            roster s max_tasks v (omega arith)
              (λ j p q. first_free_id-none max_tasks s 1 j e (omega arith) (omega arith)) in
          absurd (
            omega (
              arith,
              size,
              list_room t xs distinct (λ y m. valid.pool y (low y m).0) own (ground (arith, low t)),
            ))
      | inr (id, e) ↦
          let (free, low, high) = first_free_id-some max_tasks s 1 id e in
          (id, e, (omega arith, omega arith), free)
    ]

-- Marking an ID changes it and no other.
pub mark_id-used :
    (s : Sched) (id j : ℕ)
    → IsId id
    → IsId j
    → is_id_used (mark_id true s id) j ≡ (if j == id then true else is_id_used s j)
unfolding is_id_used mark_id
mark_id-used s id j (p, q) (p', q') = ground arith
