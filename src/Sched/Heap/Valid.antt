-- ===== src/Sched/Heap/Valid.antt =====
-- The ready queue's invariant, and what an insertion and a removal mean.
use so_rtos.Base.{
  ℕ, zero, suc, ◌≡◌, inl, inr, refl, ◌==◌, if◌then◌else◌, ◌<◌, ◌≤◌, ◌+◌, ◌-◌, arith, ltb, true,
  false, ◌&&◌, Bool-cases, Option-cases, is_null,
}
use so_rtos.Task.{max_tasks}
use so_rtos.Sched.{Sched}
use so_rtos.Sched.Vruntime.{vruntime_lt}
use so_rtos.Sched.Heap.{vruntime_at, parent, heap_up, heap_down, heap_up_loop, set_heap_index}
use so_rtos.Sched.Heap.Swap.{rank, IsWindowed, vruntime_lt-rank}
use so_rtos.Sched.Heap.Order.{
  IsOrdered, IsHole, IsAboveChildren, IsBelowParent, heap_up_loop-IsOrdered,
  heap_down_loop-IsOrdered,
}
use so_rtos.Sched.Heap.Index.{
  heap_index, IsIndexed, Reorders, heap_size-Reorders, heap_up_loop-Reorders,
  heap_down_loop-Reorders, Reorders-trans,
}

pub record IsHeap (base : ℕ) (s : Sched) : Type 0 where
  pub bounded : s.heap_size ≤ max_tasks
  pub indexed : IsIndexed s
  pub windowed : IsWindowed base s
  pub ordered : IsOrdered base s

-- `s'` is `s` with exactly the task `t` more in the ready queue.
pub record Inserts (t : ℕ) (s s' : Sched) : Type 0 where
  pub frame :
      s'
      ≡ record s { task_of = s'.task_of; ready_heap = s'.ready_heap; heap_size = s.heap_size + 1 }
  pub task : (k : ℕ) → s'.task_of k ≡ set_heap_index (heap_index s' k) (s.task_of k)
  pub queued :
      (k : ℕ) → is_null (heap_index s' k) ≡ (if k == t then false else is_null (heap_index s k))

-- `s'` is `s` with exactly the task `t` less in the ready queue.
pub record Removes (t : ℕ) (s s' : Sched) : Type 0 where
  pub frame :
      s'
      ≡ record s { task_of = s'.task_of; ready_heap = s'.ready_heap; heap_size = s.heap_size - 1 }
  pub task : (k : ℕ) → s'.task_of k ≡ set_heap_index (heap_index s' k) (s.task_of k)
  pub queued :
      (k : ℕ) → is_null (heap_index s' k) ≡ (if k == t then true else is_null (heap_index s k))

-- A reordering keeps the window.
pub Reorders-IsWindowed :
    (base : ℕ) {s s' : Sched} → Reorders s s' → IsIndexed s → IsWindowed base s → IsWindowed base s'
Reorders-IsWindowed base {s} {s'} r v w i p = elim (Option-cases (heap_index s (s'.ready_heap i))) [
  | inl e ↦ absurd (ground (arith, r.indexed.slots i p, r.queued (s'.ready_heap i)))
  | inr (j, e) ↦
      let (q, same) = v.tasks (s'.ready_heap i) j e in
      ground (arith, w j q, r.task (s'.ready_heap i))
]

-- Restoring the order round one entry, upwards or downwards, makes a heap.
module _ (base : ℕ) (s : Sched) (i : ℕ) (inside : i < s.heap_size) (small : s.heap_size ≤ max_tasks)
    (v : IsIndexed s) (w : IsWindowed base s) (hole : IsHole base s i) where
  pub heap_up-IsHeap :
      IsAboveChildren base s i → IsHeap base (heap_up s i) × Reorders s (heap_up s i)
  unfolding heap_up
  heap_up-IsHeap above =
      let r = heap_up_loop-Reorders i s i inside v in
      (
        record {
          bounded = rw (heap_size-Reorders r) small;
          indexed = r.indexed;
          windowed = Reorders-IsWindowed base r v w;
          ordered = heap_up_loop-IsOrdered base i s i (omega arith) inside w hole above;
        },
        r,
      )

  pub heap_down-IsHeap :
      IsBelowParent base s i → IsHeap base (heap_down s i) × Reorders s (heap_down s i)
  unfolding heap_down
  heap_down-IsHeap below =
      let r = heap_down_loop-Reorders s.heap_size s i inside v in
      (
        record {
          bounded = rw (heap_size-Reorders r) small;
          indexed = r.indexed;
          windowed = Reorders-IsWindowed base r v w;
          ordered = heap_down_loop-IsOrdered base s.heap_size s i (omega arith) inside w hole below;
        },
        r,
      )

heap_up_loop_id :
    (fuel : ℕ) (s : Sched) (i : ℕ)
    → (ltb 0 i && vruntime_lt (vruntime_at s i) (vruntime_at s (parent i))) ≡ false
    → heap_up_loop fuel s i ≡ s
unfolding heap_up_loop
heap_up_loop_id zero s i e = refl
heap_up_loop_id (suc fuel) s i e = rw (e, heap_up_loop)

heap_up_id :
    (s : Sched) (i : ℕ)
    → (ltb 0 i && vruntime_lt (vruntime_at s i) (vruntime_at s (parent i))) ≡ false
    → heap_up s i ≡ s
unfolding heap_up
heap_up_id s i e = heap_up_loop_id i s i e

-- Where it is not known which way the entry has to go, `_heap_up` then `_heap_down` do.
pub heap_up_down-IsHeap :
    (base : ℕ) (s : Sched) (i : ℕ)
    → i < s.heap_size
    → s.heap_size ≤ max_tasks
    → IsIndexed s
    → IsWindowed base s
    → IsHole base s i
    → IsHeap base (heap_down (heap_up s i) i) × Reorders s (heap_down (heap_up s i) i)
heap_up_down-IsHeap base s i inside small v w hole =
    elim (Bool-cases (ltb 0 i && vruntime_lt (vruntime_at s i) (vruntime_at s (parent i)))) [
      | inl e ↦
          let up =
            heap_up-IsHeap base s i inside small v w hole
              λ c p q r. ground (arith, compared, hole.bridged c) in
          let s' = heap_up s i in
          let down =
            heap_down-IsHeap base s' i (rw (heap_size-Reorders up.1) inside) up.0.bounded
              up.0.indexed up.0.windowed
              (record {
                edges = λ c p q _ _. up.0.ordered c p q;
                bridged = λ c p q e' r. ground (arith, up.0.ordered c p q, up.0.ordered i r);
              })
              (λ r. up.0.ordered i r (rw (heap_size-Reorders up.1) inside)) in
          (down.0, Reorders-trans up.1 down.1)
      | inr e ↦
          rw (heap_up_id s i e)
            (heap_down-IsHeap base s i inside small v w hole (λ p. ground (arith, compared)))
    ]
  where
    compared :
        vruntime_lt (vruntime_at s i) (vruntime_at s (parent i))
        ≡ ltb (rank base s i) (rank base s (parent i))
    compared = vruntime_lt-rank base s i (parent i) (w i inside) (w (parent i) (omega arith))
