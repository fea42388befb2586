-- ===== src/Sched/Heap/Order.antt =====
-- The heap order by rank, and how `_heap_up` and `_heap_down` restore it around one entry.
use so_rtos.Base.{
  ℕ, zero, suc, ◌≡◌, ◌≢◌, ◌⊎◌, inl, inr, ◌==◌, ◌<◌, ◌≤◌, ◌+◌, ◌*◌, arith, ltb, ◌&&◌, Bool-cases,
}
use so_rtos.Sched.{Sched}
use so_rtos.Sched.Vruntime.{vruntime_lt}
use so_rtos.Sched.Heap.{swap_tasks, vruntime_at, parent, heap_up_loop, heap_down_loop, smallest_of}
use so_rtos.Sched.Heap.Swap.{
  rank, IsWindowed, vruntime_lt-rank, heap_size-swap, rank-swap, swap-IsWindowed,
}

-- No entry is ahead of its parent.
abbrev pub IsOrdered : ℕ → Sched → Type 0
IsOrdered base s = (c : ℕ) → 0 < c → c < s.heap_size → rank base s (parent c) ≤ rank base s c

-- All is in order but for the entry at `i`, and what is around `i` is.
pub record IsHole (base : ℕ) (s : Sched) (i : ℕ) : Type 0 where
  pub edges :
      (c : ℕ)
      → 0 < c
      → c < s.heap_size
      → c ≢ i
      → parent c ≢ i
      → rank base s (parent c) ≤ rank base s c
  pub bridged :
      (c : ℕ)
      → 0 < c
      → c < s.heap_size
      → parent c ≡ i
      → 0 < i
      → rank base s (parent i) ≤ rank base s c

-- The entry at `i` is behind none of its children, or not ahead of its parent.
abbrev pub IsAboveChildren : ℕ → Sched → ℕ → Type 0
IsAboveChildren base s i =
    (c : ℕ) → 0 < c → c < s.heap_size → parent c ≡ i → rank base s i ≤ rank base s c

abbrev pub IsBelowParent : ℕ → Sched → ℕ → Type 0
IsBelowParent base s i = 0 < i → rank base s (parent i) ≤ rank base s i

pub IsOrdered-of_hole :
    (base : ℕ) (s : Sched) (i : ℕ)
    → IsHole base s i
    → IsAboveChildren base s i
    → IsBelowParent base s i
    → IsOrdered base s
IsOrdered-of_hole base s i v above below c p q = ground (arith, v.edges c, above c, below, p, q)

module _ (base : ℕ) (s : Sched) (i : ℕ) (v : IsHole base s i) (inside : i < s.heap_size) where
  -- One round of `_heap_up`.
  up-IsHole :
      0 < i
      → rank base s i < rank base s (parent i)
      → IsHole base (swap_tasks s i (parent i)) (parent i)
  up-IsHole pos less = record {
    edges = λ c p q r t. ground (
      arith,
      heap_size-swap s i (parent i),
      rank-swap base s i (parent i) c,
      rank-swap base s i (parent i) (parent c),
      v.edges c,
      v.bridged c,
    );
    bridged = λ c p q r t. ground (
      arith,
      heap_size-swap s i (parent i),
      rank-swap base s i (parent i) c,
      rank-swap base s i (parent i) (parent (parent i)),
      v.edges c,
      v.edges (parent i),
    );
  }

  up-IsAboveChildren :
      0 < i
      → rank base s i < rank base s (parent i)
      → IsAboveChildren base (swap_tasks s i (parent i)) (parent i)
  up-IsAboveChildren pos less c p q r = ground (
    arith,
    heap_size-swap s i (parent i),
    rank-swap base s i (parent i) c,
    rank-swap base s i (parent i) (parent i),
    v.edges c,
  )

pub heap_up_loop-IsOrdered :
    (base fuel : ℕ) (s : Sched) (i : ℕ)
    → i ≤ fuel
    → i < s.heap_size
    → IsWindowed base s
    → IsHole base s i
    → IsAboveChildren base s i
    → IsOrdered base (heap_up_loop fuel s i)
unfolding heap_up_loop
heap_up_loop-IsOrdered base zero s i f inside w v above =
    IsOrdered-of_hole base s i v above (λ p. absurd (omega arith))
heap_up_loop-IsOrdered base (suc fuel) s i f inside w v above =
    let above_i : parent i < s.heap_size = omega arith in
    let compared = vruntime_lt-rank base s i (parent i) (w i inside) (w (parent i) above_i) in
    elim (Bool-cases (ltb 0 i && vruntime_lt (vruntime_at s i) (vruntime_at s (parent i)))) [
      | inl e ↦
          let pos : 0 < i = ground arith in
          let less : rank base s i < rank base s (parent i) = ground arith in
          rw (e, heap_up_loop)
            (heap_up_loop-IsOrdered base fuel (swap_tasks s i (parent i)) (parent i) (omega arith)
              (rw heap_size-swap above_i) (swap-IsWindowed base s i (parent i) inside above_i w)
              (up-IsHole base s i v inside pos less)
              (up-IsAboveChildren base s i v inside pos less))
      | inr e ↦ rw (e, heap_up_loop) (IsOrdered-of_hole base s i v above (λ p. ground arith))
    ]

-- What `_heap_down` picks: a child ahead of `i` and not behind the other, or `i` if none is ahead.
pub record IsSmallest (base : ℕ) (s : Sched) (i m : ℕ) : Type 0 where
  pub inside : m < s.heap_size
  pub child : (m ≡ i) ⊎ ((m ≡ 2 * i + 1) ⊎ (m ≡ 2 * i + 2))
  pub ahead : m ≢ i → rank base s m < rank base s i
  pub least : (c : ℕ) → 0 < c → c < s.heap_size → parent c ≡ i → rank base s m ≤ rank base s c

smallest_of-IsSmallest :
    (base : ℕ) (s : Sched) (i : ℕ)
    → i < s.heap_size
    → IsWindowed base s
    → IsSmallest base s i (smallest_of s i)
unfolding smallest_of
smallest_of-IsSmallest base s i inside w =
    let compared = λ (j k : ℕ) (p : j < s.heap_size) (q : k < s.heap_size).
      vruntime_lt-rank base s j k (w j p) (w k q) in
    record {
      inside = ground (arith, compared (2 * i + 1) i);
      child = ground arith;
      ahead =
          ground (
            arith,
            compared (2 * i + 1) i,
            compared (2 * i + 2) i,
            compared (2 * i + 2) (2 * i + 1),
          );
      least = λ c p q r.
          ground (
            arith,
            compared (2 * i + 1) i,
            compared (2 * i + 2) i,
            compared (2 * i + 2) (2 * i + 1),
          );
    }

module _ (base : ℕ) (s : Sched) (i m : ℕ) (v : IsHole base s i) (inside : i < s.heap_size)
    (least : IsSmallest base s i m) (moved : m ≢ i) where
  down-IsHole : IsHole base (swap_tasks s i m) m
  down-IsHole = record {
    edges = λ c p q r t. ground (
      arith,
      heap_size-swap s i m,
      rank-swap base s i m c,
      rank-swap base s i m (parent c),
      v.edges c,
      v.bridged m,
      least.least c,
      least.child,
      least.inside,
      least.ahead,
    );
    bridged = λ c p q r t. ground (
      arith,
      heap_size-swap s i m,
      rank-swap base s i m c,
      rank-swap base s i m (parent m),
      v.edges c,
      least.child,
    );
  }

  down-IsBelowParent : IsBelowParent base (swap_tasks s i m) m
  down-IsBelowParent p =
      ground
        (arith, rank-swap base s i m m, rank-swap base s i m (parent m), least.child, least.ahead)

pub heap_down_loop-IsOrdered :
    (base fuel : ℕ) (s : Sched) (i : ℕ)
    → s.heap_size ≤ i + fuel
    → i < s.heap_size
    → IsWindowed base s
    → IsHole base s i
    → IsBelowParent base s i
    → IsOrdered base (heap_down_loop fuel s i)
unfolding heap_down_loop
heap_down_loop-IsOrdered base zero s i f inside w v below = absurd (omega arith)
heap_down_loop-IsOrdered base (suc fuel) s i f inside w v below =
    let m = smallest_of s i in
    let least = smallest_of-IsSmallest base s i inside w in
    elim (Bool-cases (m == i)) [
      | inl e ↦
          let same : m ≡ i = ground arith in
          rw (e, heap_down_loop)
            (IsOrdered-of_hole base s i v (λ c p q r. rw same at (least.least c p q r)) below)
      | inr e ↦
          let moved : m ≢ i = ground arith in
          rw (e, heap_down_loop)
            (heap_down_loop-IsOrdered base fuel (swap_tasks s i m) m
              (ground (arith, heap_size-swap s i m, least.child)) (rw heap_size-swap least.inside)
              (swap-IsWindowed base s i m inside least.inside w)
              (down-IsHole base s i m v inside least moved)
              (down-IsBelowParent base s i m v inside least moved))
    ]
