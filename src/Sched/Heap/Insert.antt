-- ===== src/Sched/Heap/Insert.antt =====
-- `_heap_insert`: the ready queue gains exactly the task, and stays a heap.
use so_rtos.Base.{ℕ, ◌≡◌, ◌<◌, ◌≤◌, ◌+◌, arith, none, some, update}
use so_rtos.Task.{max_tasks}
use so_rtos.Sched.{Sched, modify}
use so_rtos.Sched.Heap.{heap_insert, heap_up, set_heap_index, parent}
use so_rtos.Sched.Heap.Swap.{rank, Fits, IsWindowed}
use so_rtos.Sched.Heap.Order.{IsHole}
use so_rtos.Sched.Heap.Index.{heap_index, IsIndexed}
use so_rtos.Sched.Heap.Valid.{IsHeap, Inserts, heap_up-IsHeap}

-- The state in which `_heap_insert` calls `_heap_up`.
abbrev appended : Sched → ℕ → Sched
appended s t = record (modify s t (set_heap_index (some s.heap_size))) {
  ready_heap = update s.ready_heap s.heap_size t;
  heap_size = s.heap_size + 1;
}

module _ (base : ℕ) (s : Sched) (t : ℕ) (v : IsHeap base s) (room : s.heap_size < max_tasks)
    (out : heap_index s t ≡ none) (fits : Fits base (s.task_of t).vruntime) where
  appended-IsIndexed : IsIndexed (appended s t)
  appended-IsIndexed = record {
    slots = λ i p. ground (arith, v.indexed.slots i);
    tasks = λ k i e. ground (arith, v.indexed.tasks k i);
  }

  appended-IsWindowed : IsWindowed base (appended s t)
  appended-IsWindowed i p = ground (arith, v.windowed i)

  appended-rank : (i : ℕ) → i < s.heap_size → rank base (appended s t) i ≡ rank base s i
  unfolding rank
  appended-rank i p = ground arith

  appended-IsHole : IsHole base (appended s t) s.heap_size
  appended-IsHole = record {
    edges = λ c p q r e. ground (arith, v.ordered c, appended-rank c, appended-rank (parent c));
    bridged = λ c p q r e. absurd (omega arith);
  }

  heap_insert-appended : heap_insert s t ≡ heap_up (appended s t) s.heap_size
  unfolding heap_insert
  heap_insert-appended = ground arith

  -- `_heap_insert` on a valid heap with room adds exactly the given task, if it is not queued and
  -- fits the window, and the heap stays valid.
  pub heap_insert-IsHeap : IsHeap base (heap_insert s t) × Inserts t s (heap_insert s t)
  heap_insert-IsHeap =
      let (heap, r) =
        heap_up-IsHeap base (appended s t) s.heap_size (omega arith) (omega arith)
          appended-IsIndexed appended-IsWindowed appended-IsHole
          (λ c p q e. absurd (omega arith)) in
      rw heap_insert-appended (
        heap,
        record {
          frame = ground (arith, r.frame);
          task = λ k. ground (arith, r.task k);
          queued = λ k. ground (arith, r.queued k);
        },
      )

-- A full ready queue refuses a task without a word.
pub heap_insert-full : (s : Sched) (t : ℕ) → max_tasks ≤ s.heap_size → heap_insert s t ≡ s
unfolding heap_insert
heap_insert-full s t h = ground arith
