-- ===== src/Sched/Heap/Remove.antt =====
-- `_heap_pop_min` and `_heap_remove`: the ready queue loses exactly one task, and stays a heap.
use so_rtos.Base.{
  ℕ, zero, suc, ◌≡◌, ◌≢◌, refl, ◌<◌, ◌≤◌, ◌+◌, ◌-◌, arith, ltb, false, none, some, inl, inr,
  Bool-cases,
}
use so_rtos.Sched.{Sched, modify}
use so_rtos.Sched.Vruntime.{vruntime_lt}
use so_rtos.Sched.Heap.{
  heap_pop_min, heap_remove, heap_remove_at, heap_down, heap_up, set_heap_index, parent, move_last,
  vruntime_at,
}
use so_rtos.Sched.Heap.Swap.{rank, IsWindowed, vruntime_lt-rank}
use so_rtos.Sched.Heap.Order.{IsHole}
use so_rtos.Sched.Heap.Index.{heap_index, IsIndexed, Reorders}
use so_rtos.Sched.Heap.Valid.{IsHeap, Removes, heap_down-IsHeap, heap_up_down-IsHeap}

-- The state in which the last slot is given up, and in which its entry fills the gap.
abbrev shortened : Sched → ℕ → Sched
shortened s t = record (modify s t (set_heap_index none)) { heap_size = s.heap_size - 1 }

abbrev filled : Sched → ℕ → ℕ → Sched
filled s t i = move_last (shortened s t) i

module _ (base : ℕ) (s : Sched) (t i : ℕ) (v : IsHeap base s) (at : heap_index s t ≡ some i) where
  inside : i < s.heap_size
  inside = (v.indexed.tasks t i at).0

  holds : s.ready_heap i ≡ t
  holds = (v.indexed.tasks t i at).1

  filled-IsIndexed : i < s.heap_size - 1 → IsIndexed (filled s t i)
  filled-IsIndexed p = record {
    slots = λ k q.
        ground
          (arith, holds, v.indexed.slots k, v.indexed.slots i, v.indexed.slots (s.heap_size - 1));
    tasks = λ k j e. ground (arith, holds, v.indexed.tasks k j, v.indexed.slots (s.heap_size - 1));
  }

  filled-IsWindowed : i < s.heap_size - 1 → IsWindowed base (filled s t i)
  filled-IsWindowed p k q = ground (arith, v.windowed k, v.windowed (s.heap_size - 1))

  filled-rank : (k : ℕ) → k < s.heap_size - 1 → k ≢ i → rank base (filled s t i) k ≡ rank base s k
  unfolding rank
  filled-rank k p q = ground arith

  filled-IsHole : i < s.heap_size - 1 → IsHole base (filled s t i) i
  filled-IsHole p = record {
    edges = λ c q r ne pe. ground (arith, v.ordered c, filled-rank c, filled-rank (parent c));
    bridged = λ c q r e pos.
        ground (arith, v.ordered c, v.ordered i, inside, filled-rank c, filled-rank (parent i));
  }

  filled-Removes : {s' : Sched} → i < s.heap_size - 1 → Reorders (filled s t i) s' → Removes t s s'
  filled-Removes p r = record {
    frame = ground (arith, r.frame);
    task = λ k. ground (arith, r.task k);
    queued = λ k.
        ground (arith, r.queued k, holds, v.indexed.slots (s.heap_size - 1), v.indexed.slots i);
  }

  -- The last slot's task leaves.
  shortened-IsHeap : s.heap_size ≡ i + 1 → IsHeap base (shortened s t) × Removes t s (shortened s t)
  unfolding rank
  shortened-IsHeap e = (
    record {
      bounded = omega (arith, v.bounded);
      indexed = record {
        slots = λ k q. ground (arith, holds, v.indexed.slots k, v.indexed.slots i);
        tasks = λ k j q. ground (arith, holds, v.indexed.tasks k j);
      };
      windowed = λ k q. ground (arith, v.windowed k);
      ordered = λ c p q. ground (arith, v.ordered c p);
    },
    record { frame = refl; task = λ k. ground arith; queued = λ k. ground arith },
  )

heap_pop_min-filled :
    (s : Sched)
    → 0 < s.heap_size
    → 0 < s.heap_size - 1
    → heap_pop_min s ≡ (some (s.ready_heap 0), heap_down (filled s (s.ready_heap 0) 0) 0)
unfolding heap_pop_min
heap_pop_min-filled s p q = ground arith

heap_pop_min-last :
    (s : Sched)
    → s.heap_size ≡ 1
    → heap_pop_min s ≡ (some (s.ready_heap 0), shortened s (s.ready_heap 0))
unfolding heap_pop_min
heap_pop_min-last s p = ground arith

-- On an empty heap `_heap_pop_min` returns NULL.
pub heap_pop_min-empty : (s : Sched) → s.heap_size ≡ 0 → heap_pop_min s ≡ (none, s)
unfolding heap_pop_min
heap_pop_min-empty s p = ground arith

module _ (base : ℕ) (s : Sched) (v : IsHeap base s) where
  -- `_heap_remove` on a valid heap takes exactly the given queued task out, wherever it stands, and
  -- the heap stays valid.
  pub heap_remove-IsHeap :
      (t i : ℕ)
      → heap_index s t ≡ some i
      → IsHeap base (heap_remove s t) × Removes t s (heap_remove s t)
  unfolding heap_remove
  heap_remove-IsHeap t i at =
      let p = inside base s t i v at in
      elim (Bool-cases (ltb i (s.heap_size - 1))) [
        | inl e ↦
            let q : i < s.heap_size - 1 = ground arith in
            let runs : heap_remove_at s t i ≡ heap_down (heap_up (filled s t i) i) i =
              ground arith in
            let (heap, r) =
              heap_up_down-IsHeap base (filled s t i) i q (omega (arith, v.bounded))
                (filled-IsIndexed base s t i v at q) (filled-IsWindowed base s t i v at q)
                (filled-IsHole base s t i v at q) in
            rw (at, heap_remove) (rw runs (heap, filled-Removes base s t i v at q r))
        | inr e ↦
            let runs : heap_remove_at s t i ≡ shortened s t = ground arith in
            rw (at, heap_remove) (rw runs (shortened-IsHeap base s t i v at (ground arith)))
      ]

  -- `_heap_remove` ignores a task that is not queued.
  pub heap_remove-absent : (t : ℕ) → heap_index s t ≡ none → heap_remove s t ≡ s
  unfolding heap_remove
  heap_remove-absent t e = rw (e, heap_remove)

  root_least_below : (n i : ℕ) → i < n → i < s.heap_size → rank base s 0 ≤ rank base s i
  root_least_below zero i p q = absurd (omega arith)
  root_least_below (suc n) zero p q = omega arith
  root_least_below (suc n) (suc i) p q = omega (
    arith,
    root_least_below n (parent (suc i)) (omega arith) (omega arith),
    v.ordered (suc i) (omega arith) q,
  )

  -- In a valid heap no queued task is ahead of the root by the comparison that wraps.
  pub root_least :
      (t i : ℕ)
      → heap_index s t ≡ some i
      → vruntime_lt (s.task_of t).vruntime (vruntime_at s 0) ≡ false
  root_least t i at =
      let (p, holds) = v.indexed.tasks t i at in
      ground (
        arith,
        root_least_below (suc i) i (omega arith) p,
        vruntime_lt-rank base s i 0 (v.windowed i p) (v.windowed 0 (omega arith)),
      )

  -- `_heap_pop_min` on a valid heap that is not empty returns the root, takes exactly it out, and
  -- leaves a valid heap.
  pub heap_pop_min-IsHeap :
      0 < s.heap_size
      → ((heap_pop_min s).0 ≡ some (s.ready_heap 0))
        × IsHeap base (heap_pop_min s).1
        × Removes (s.ready_heap 0) s (heap_pop_min s).1
  heap_pop_min-IsHeap p =
      let t = s.ready_heap 0 in
      let at = v.indexed.slots 0 p in
      elim (Bool-cases (ltb 0 (s.heap_size - 1))) [
        | inl e ↦
            let q : 0 < s.heap_size - 1 = ground arith in
            let (heap, r) =
              heap_down-IsHeap base (filled s t 0) 0 q (omega (arith, v.bounded))
                (filled-IsIndexed base s t 0 v at q) (filled-IsWindowed base s t 0 v at q)
                (filled-IsHole base s t 0 v at q) (λ n. absurd (omega arith)) in
            rw (heap_pop_min-filled s p q) (refl, heap, filled-Removes base s t 0 v at q r)
        | inr e ↦ rw (heap_pop_min-last s (ground arith)) (
          refl,
          (shortened-IsHeap base s t 0 v at (ground arith)).0,
          (shortened-IsHeap base s t 0 v at (ground arith)).1,
        )
      ]
