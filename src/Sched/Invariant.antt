-- ===== src/Sched/Invariant.antt =====
-- The scheduler's invariant: where each task of the pool stands agrees with its state.
pub mod Room
pub mod Off
pub mod Attach
pub mod Unblock
pub mod Touch
pub mod Tick
pub mod State
pub mod Sleeping
pub mod Yield
pub mod Dispatch
use so_rtos.Base.{ℕ, ◌≡◌, ◌≢◌, ◌<◌, Bool, true, false, not, ◌&&◌, List, is_null, Option, none, some}
use so_rtos.Chain.{contains}
use so_rtos.Task.{Task, TaskState, max_tasks, is_ready, is_sleeping, is_unused, is_zombie}
use so_rtos.Sched.{Sched}
use so_rtos.Sched.Heap.Swap.{Fits}
use so_rtos.Sched.Heap.Index.{heap_index}
use so_rtos.Sched.Heap.Valid.{IsHeap}
use so_rtos.Sched.Sleep.Remove.{IsSleepList}

-- Neither unused nor a zombie.
abbrev pub is_live : TaskState → Bool
is_live x = not (is_unused x) && not (is_zombie x)

abbrev pub state_of : Sched → ℕ → TaskState
state_of s t = (s.task_of t).state

-- The virtual runtime of the current task, or 0 before there is one.
abbrev pub vruntime_or_zero : Sched → Option ℕ → ℕ
vruntime_or_zero s none = 0
vruntime_or_zero s (some c) = (s.task_of c).vruntime

abbrev pub curr_vruntime : Sched → ℕ
curr_vruntime s = vruntime_or_zero s s.curr

-- The ready queue is a heap of exactly the ready tasks but for idle ones, and the sleep list `xs`
-- holds exactly the sleeping tasks.
pub record IsValid (base : ℕ) (s : Sched) (xs : List ℕ) : Type 0 where
  pub heap : IsHeap base s
  pub sleep : IsSleepList s xs
  pub pool : (t : ℕ) → is_live (state_of s t) ≡ true → t < max_tasks
  pub fits : (t : ℕ) → is_live (state_of s t) ≡ true → Fits base (s.task_of t).vruntime
  pub floor : Fits base (curr_vruntime s)
  pub queued :
      (t : ℕ)
      → is_null (heap_index s t) ≡ not (is_ready (state_of s t) && not (s.task_of t).is_idle)
  pub sleeping : (t : ℕ) → contains xs t ≡ is_sleeping (state_of s t)

-- The same while the task `t` is being moved: it is off the heap, it is on the sleep list or not
-- as `asleep` says, and its state is open.
pub record IsOff (asleep : Bool) (t base : ℕ) (s : Sched) (xs : List ℕ) : Type 0 where
  pub heap : IsHeap base s
  pub sleep : IsSleepList s xs
  pub pool : (k : ℕ) → k ≢ t → is_live (state_of s k) ≡ true → k < max_tasks
  pub fits : (k : ℕ) → k ≢ t → is_live (state_of s k) ≡ true → Fits base (s.task_of k).vruntime
  pub floor : Fits base (curr_vruntime s)
  pub queued :
      (k : ℕ)
      → k ≢ t
      → is_null (heap_index s k) ≡ not (is_ready (state_of s k) && not (s.task_of k).is_idle)
  pub sleeping : (k : ℕ) → k ≢ t → contains xs k ≡ is_sleeping (state_of s k)
  pub own_pool : t < max_tasks
  pub own_fits : Fits base (s.task_of t).vruntime
  pub off_heap : heap_index s t ≡ none
  pub off_sleep : contains xs t ≡ asleep
