-- ===== src/Sched/Heap/Index.antt =====
-- Every queued task knows its slot, and what the heap's loops leave alone.
use so_rtos.Base.{
  ℕ, zero, suc, ◌≡◌, inl, inr, refl, ◌==◌, if◌then◌else◌, ◌<◌, arith, ltb, ◌&&◌, Bool-cases, Option,
  some, is_null, ◌∙◌, ap,
}
use so_rtos.Sched.{Sched}
use so_rtos.Sched.Vruntime.{vruntime_lt}
use so_rtos.Sched.Heap.{
  swap_tasks, vruntime_at, parent, heap_up_loop, heap_down_loop, smallest_of, set_heap_index,
}
use so_rtos.Sched.Heap.Swap.{ready_heap-swap, heap_size-swap}

abbrev pub heap_index : Sched → ℕ → Option ℕ
heap_index s t = (s.task_of t).heap_index

-- The slots and the tasks' indices agree, both ways: so no task is queued twice.
pub record IsIndexed (s : Sched) : Type 0 where
  pub slots : (i : ℕ) → i < s.heap_size → heap_index s (s.ready_heap i) ≡ some i
  pub tasks : (t i : ℕ) → heap_index s t ≡ some i → (i < s.heap_size) × (s.ready_heap i ≡ t)

-- `s'` is `s` but for the order of the same queued tasks.
pub record Reorders (s s' : Sched) : Type 0 where
  pub frame : s' ≡ record s { task_of = s'.task_of; ready_heap = s'.ready_heap }
  pub task : (t : ℕ) → s'.task_of t ≡ set_heap_index (heap_index s' t) (s.task_of t)
  pub queued : (t : ℕ) → is_null (heap_index s' t) ≡ is_null (heap_index s t)
  pub indexed : IsIndexed s'

heap_index-swap :
    (s : Sched) (i j t : ℕ)
    → heap_index (swap_tasks s i j) t ≡ (
        if t == s.ready_heap i
        then some j
        else if t == (if i == j then s.ready_heap i else s.ready_heap j)
        then some i
        else heap_index s t)
unfolding swap_tasks
heap_index-swap s i j t = ground arith

module _ (s : Sched) (i j : ℕ) (p : i < s.heap_size) (q : j < s.heap_size) (v : IsIndexed s) where
  swap-slots :
      (k : ℕ)
      → k < (swap_tasks s i j).heap_size
      → heap_index (swap_tasks s i j) ((swap_tasks s i j).ready_heap k) ≡ some k
  swap-slots k r = ground (
    arith,
    heap_index-swap s i j ((swap_tasks s i j).ready_heap k),
    ready_heap-swap s i j k,
    heap_size-swap s i j,
    v.slots k,
    v.slots i p,
    v.slots j q,
  )

  swap-tasks :
      (t k : ℕ)
      → heap_index (swap_tasks s i j) t ≡ some k
      → (k < (swap_tasks s i j).heap_size) × ((swap_tasks s i j).ready_heap k ≡ t)
  swap-tasks t k e = ground (
    arith,
    heap_index-swap s i j t,
    heap_size-swap s i j,
    ready_heap-swap s i j k,
    v.tasks t k,
    v.slots k,
  )

  swap-Reorders : Reorders s (swap_tasks s i j)
  unfolding swap_tasks
  swap-Reorders = record {
    frame = refl;
    task = λ t. ground arith;
    queued = λ t. ground (arith, v.slots i p, v.slots j q);
    indexed = record { slots = swap-slots; tasks = swap-tasks };
  }

Reorders-refl : (s : Sched) → IsIndexed s → Reorders s s
Reorders-refl s v = record { frame = refl; task = λ t. refl; queued = λ t. refl; indexed = v }

pub Reorders-trans : {s t u : Sched} → Reorders s t → Reorders t u → Reorders s u
Reorders-trans {s} {t} {u} p q = record {
  frame = ground (arith, p.frame, q.frame);
  task = λ k. ground (arith, p.task k, q.task k);
  queued = λ k. q.queued k ∙ p.queued k;
  indexed = q.indexed;
}

pub heap_size-Reorders : {s s' : Sched} → Reorders s s' → s'.heap_size ≡ s.heap_size
heap_size-Reorders p = ap (λ x. x.heap_size) p.frame

pub heap_up_loop-Reorders :
    (fuel : ℕ) (s : Sched) (i : ℕ)
    → i < s.heap_size
    → IsIndexed s
    → Reorders s (heap_up_loop fuel s i)
unfolding heap_up_loop
heap_up_loop-Reorders zero s i p v = Reorders-refl s v
heap_up_loop-Reorders (suc fuel) s i p v =
    elim (Bool-cases (ltb 0 i && vruntime_lt (vruntime_at s i) (vruntime_at s (parent i)))) [
      | inl e ↦
          let above : parent i < s.heap_size = omega arith in
          let first = swap-Reorders s i (parent i) p above v in
          rw (e, heap_up_loop)
            (Reorders-trans first (
              heap_up_loop-Reorders fuel (swap_tasks s i (parent i)) (parent i)
                (rw heap_size-swap above) first.indexed))
      | inr e ↦ rw (e, heap_up_loop) (Reorders-refl s v)
    ]

smallest_of-lt : (s : Sched) (i : ℕ) → i < s.heap_size → smallest_of s i < s.heap_size
unfolding smallest_of
smallest_of-lt s i p = ground arith

pub heap_down_loop-Reorders :
    (fuel : ℕ) (s : Sched) (i : ℕ)
    → i < s.heap_size
    → IsIndexed s
    → Reorders s (heap_down_loop fuel s i)
unfolding heap_down_loop
heap_down_loop-Reorders zero s i p v = Reorders-refl s v
heap_down_loop-Reorders (suc fuel) s i p v =
    let m = smallest_of s i in
    let below = smallest_of-lt s i p in
    elim (Bool-cases (m == i)) [
      | inl e ↦ rw (e, heap_down_loop) (Reorders-refl s v)
      | inr e ↦
          let first = swap-Reorders s i m p below v in
          rw (e, heap_down_loop)
            (Reorders-trans first (
              heap_down_loop-Reorders fuel (swap_tasks s i m) m (rw heap_size-swap below)
                first.indexed))
    ]
