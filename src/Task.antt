-- ===== src/Task.antt =====
-- kernel/src/scheduler.c, kernel/include/scheduler.h and config/project_config.h: the task
-- control block, its states and the accessors that the other kernel parts use. A `task_t *` is
-- the index of the task in `g_sched.pool`, and a pointer that may be NULL an `Option`. The wait
-- node that the struct embeds is named by the same index.
use so_rtos.Base.{ℕ, Option, Bool, true, false}

-- `MAX_TASKS`, `MAX_CPUS`, `BASE_SLICE_TICKS`, `VRUNTIME_SCALER`.
abbrev pub max_tasks : ℕ
max_tasks = 58

abbrev pub max_cpus : ℕ
max_cpus = 1

abbrev pub base_slice_ticks : ℕ
base_slice_ticks = 2

abbrev pub vruntime_scaler : ℕ
vruntime_scaler = 1000

pub data TaskState : Type 0 where
  unused ready running blocked sleeping zombie : TaskState

abbrev pub is_unused : TaskState → Bool
is_unused TaskState.unused = true
is_unused _ = false

abbrev pub is_ready : TaskState → Bool
is_ready TaskState.ready = true
is_ready _ = false

abbrev pub is_running : TaskState → Bool
is_running TaskState.running = true
is_running _ = false

abbrev pub is_blocked : TaskState → Bool
is_blocked TaskState.blocked = true
is_blocked _ = false

abbrev pub is_sleeping : TaskState → Bool
is_sleeping TaskState.sleeping = true
is_sleeping _ = false

abbrev pub is_zombie : TaskState → Bool
is_zombie TaskState.zombie = true
is_zombie _ = false

-- `task_t`. `heap_index` is `none` for -1. `stack_ptr` is the address of the stack, and `psp` the
-- saved stack pointer.
pub record Task : Type 0 where
  pub psp : ℕ
  pub stack_ptr : Option ℕ
  pub next : Option ℕ
  pub stack_size : ℕ
  pub vruntime : ℕ
  pub total_cpu_ticks : ℕ
  pub last_switch_tick : ℕ
  pub sleep_until_tick : ℕ
  pub time_slice : ℕ
  pub notify_val : ℕ
  pub event_mask : ℕ
  pub heap_index : Option ℕ
  pub task_id : ℕ
  pub state : TaskState
  pub is_idle : Bool
  pub weight : ℕ
  pub base_weight : ℕ
  pub notify_state : ℕ
  pub event_flags : ℕ
  pub cpu_id : ℕ

-- `wait_node_t`.
pub record WaitNode : Type 0 where
  pub task : ℕ
  pub next : Option ℕ
