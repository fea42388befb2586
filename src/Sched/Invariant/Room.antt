-- ===== src/Sched/Invariant/Room.antt =====
-- The pool is large enough: a task of the pool that is not queued finds room in the ready queue,
-- and one that is not asleep finds room on the sleep list.
use so_rtos.Base.{
  ℕ, zero, suc, ◌≡◌, ◌<◌, ◌≤◌, ◌==◌, true, false, List, [], ◌∷◌, none, some, is_null, arith,
  Bool-cases, inl, inr, ap, refl,
}
use so_rtos.Chain.{
  length, contains, erase, IsDistinct, contains-erase, erase-IsDistinct, length-erase,
}
use so_rtos.Task.{max_tasks}
use so_rtos.Sched.{Sched}
use so_rtos.Sched.Heap.Index.{heap_index, IsIndexed}

-- Distinct numbers below `m` are at most `m` many.
pub pigeonhole :
    (m : ℕ) (xs : List ℕ) → IsDistinct xs → ((y : ℕ) → contains xs y ≡ true → y < m) → length xs ≤ m
pigeonhole zero [] d h = omega arith
pigeonhole zero (x ∷ xs) d h = absurd (omega (arith, h x (ground arith)))
pigeonhole (suc m) xs d h = elim (Bool-cases (contains xs m)) [
  | inl e ↦ omega (
    arith,
    length-erase m xs e,
    pigeonhole m (erase m xs) (erase-IsDistinct m xs d)
        (λ y p. ground (arith, contains-erase m y xs d, h y)),
  )
  | inr e ↦
      let below = pigeonhole m xs d (λ y p. ground (arith, h y p, ap (contains xs))) in omega arith
]

-- The tasks in the first `n` slots.
abbrev slots : Sched → ℕ → List ℕ
slots s zero = []
slots s (suc n) = s.ready_heap n ∷ slots s n

slots_queued :
    (s : Sched) (n t : ℕ)
    → IsIndexed s
    → n ≤ s.heap_size
    → contains (slots s n) t ≡ true
    → (i : ℕ) × (i < n) × (heap_index s t ≡ some i)
slots_queued s zero t v h c = cc
slots_queued s (suc n) t v h c = elim (Bool-cases (s.ready_heap n == t)) [
  | inl e ↦
      let same : s.ready_heap n ≡ t = ground arith in (n, omega arith, rw same at (v.slots n h))
  | inr e ↦ let (i, p, q) = slots_queued s n t v (omega arith) (ground arith) in (i, omega arith, q)
]

slots-IsDistinct : (s : Sched) (n : ℕ) → IsIndexed s → n ≤ s.heap_size → IsDistinct (slots s n)
slots-IsDistinct s zero v h = tt
slots-IsDistinct s (suc n) v h = elim (Bool-cases (contains (slots s n) (s.ready_heap n))) [
  | inl e ↦
      let (i, p, q) = slots_queued s n (s.ready_heap n) v (omega arith) e in
      absurd (ground (arith, v.slots n h))
  | inr e ↦ (e, slots-IsDistinct s n v (omega arith))
]

length-slots : (s : Sched) (n : ℕ) → length (slots s n) ≡ n
length-slots s zero = refl
length-slots s (suc n) = ap suc (length-slots s n)

module _ (s : Sched) (t : ℕ) (v : IsIndexed s)
    (pool : (k : ℕ) → is_null (heap_index s k) ≡ false → k < max_tasks) (own : t < max_tasks)
    (out : heap_index s t ≡ none) where
  -- A task of the pool that is not queued finds room.
  pub heap_room : s.heap_size < max_tasks
  heap_room =
      let n = s.heap_size in
      omega (
        arith,
        length-slots s n,
        pigeonhole max_tasks (t ∷ slots s n) (fresh, slots-IsDistinct s n v (omega arith)) below,
      )
    where
      fresh : contains (slots s s.heap_size) t ≡ false
      fresh = elim (Bool-cases (contains (slots s s.heap_size) t)) [
        | inl e ↦
            let (i, p, q) = slots_queued s s.heap_size t v (omega arith) e in absurd (ground arith)
        | inr e ↦ e
      ]

      below : (y : ℕ) → contains (t ∷ slots s s.heap_size) y ≡ true → y < max_tasks
      below y c = elim (Bool-cases (contains (slots s s.heap_size) y)) [
        | inl e ↦
            let (i, p, q) = slots_queued s s.heap_size y v (omega arith) e in pool y (ground arith)
        | inr e ↦ ground arith
      ]

-- A task of the pool that is not on a list of its tasks finds room there.
pub list_room :
    (t : ℕ) (xs : List ℕ)
    → IsDistinct xs
    → ((y : ℕ) → contains xs y ≡ true → y < max_tasks)
    → t < max_tasks
    → contains xs t ≡ false
    → length xs < max_tasks
list_room t xs d h own out =
    pigeonhole max_tasks (t ∷ xs) (out, d)
      (λ y c. elim (Bool-cases (t == y)) [ inl e ↦ ground arith | inr e ↦ h y (ground arith) ])
