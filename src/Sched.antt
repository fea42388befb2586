-- ===== src/Sched.antt =====
-- kernel/src/scheduler.c: the scheduler's state. `g_sched` and `cpu_sched[0]` are one record,
-- since `MAX_CPUS` is 1 and `arch_get_cpu_id` returns 0 on both architectures. The spinlocks
-- carry no state on one processor: what stands between `spin_lock` and `spin_unlock` is one
-- atomic step.
pub mod Vruntime
pub mod Heap
pub mod Sleep
pub mod Invariant
pub mod Block
pub mod Switch
pub mod Wait
pub mod Collect
pub mod Create
pub mod Start
pub mod StackCheck
pub mod Weight
pub mod Tests
use so_rtos.Base.{ℕ, ◌≡◌, refl, Option, none, some, Bool, true, false, update, if◌then◌else◌, ◌==◌}
use so_rtos.Task.{Task, WaitNode}

-- `task_of` and `nodes` are the structs in `g_sched.pool` and the wait nodes embedded in them;
-- `ready_heap` is the array of task pointers, `id_bitmap` its words and their bits.
pub record Sched : Type 0 where
  pub task_of : ℕ → Task
  pub nodes : ℕ → WaitNode
  pub free_list : Option ℕ
  pub zombie_list : Option ℕ
  pub id_bitmap : ℕ → ℕ → Bool
  pub count : ℕ
  pub next_cpu : ℕ
  pub ready_heap : ℕ → ℕ
  pub heap_size : ℕ
  pub sleep_list : Option ℕ
  pub idle_task : Option ℕ
  pub curr : Option ℕ

-- `task->f = v`, for the task at the given address.
abbrev pub modify : Sched → ℕ → (Task → Task) → Sched
modify s t f = record s { task_of = update s.task_of t (f (s.task_of t)) }
