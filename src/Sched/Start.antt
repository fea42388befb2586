-- ===== src/Sched/Start.antt =====
-- kernel/src/scheduler.c: the start of the scheduler, with its idle task. The platform's start is the
-- stack pointer that it is called with.
use so_rtos.Base.{
  ℕ, Option, none, some, true, false, not, ◌||◌, ◌==◌, ltb, is_null, ◌+◌, ◌-◌, if◌then◌else◌,
}
use so_rtos.Task.{Task, TaskState, max_tasks}
use so_rtos.Sched.{Sched, modify}
use so_rtos.Sched.Heap.{heap_remove, heap_pop_min}
use so_rtos.Sched.Sleep.{set_state}
use so_rtos.Sched.Block.{find_task}
use so_rtos.Sched.Collect.{Allocator, Kernel}
use so_rtos.Sched.Create.{InitStack, task_weight_idle, task_create}

module _ {H : Type 0} (alloc : Allocator H) (init_stack : InitStack) where
  -- `_task_create_idle`, with the address of the idle task's function; `none` when it panics.
  abbrev mark_idle : Task → Task
  mark_idle t = record t { is_idle = true; cpu_id = 0 }

  unfoldable pub adopt_idle : Kernel H → Option ℕ → Kernel H
  adopt_idle k none = k
  adopt_idle k (some t) = record k {
    sched = heap_remove (modify (record k.sched { idle_task = some t }) t mark_idle) t;
  }

  unfoldable pub idle_created : Option ℕ × Kernel H → Option (Kernel H)
  unfolding adopt_idle
  idle_created (none, k) = none
  idle_created (some id, k) = some (adopt_idle k (find_task k.sched id))

  unfoldable pub task_create_idle : Kernel H → ℕ → Option (Kernel H)
  unfolding idle_created
  task_create_idle k func =
      if not (is_null k.sched.idle_task)
      then some k
      else idle_created (
          task_create alloc init_stack k
            (record { func = some func; arg = 0; size = 512; weight = task_weight_idle }))

  -- `scheduler_start`: the saved stack pointer that the platform starts with, or `none` when it
  -- panics.
  unfoldable pub start_idle : Kernel H → Option ℕ → Option (ℕ × Kernel H)
  start_idle k none = none
  start_idle k (some t) = some (
    (k.sched.task_of t).psp,
    record k { sched = modify (record k.sched { curr = some t }) t (set_state TaskState.running) },
  )

  abbrev start_running : ℕ → Task → Task
  start_running now t = record t { state = TaskState.running; last_switch_tick = now }

  unfoldable pub start_first : Kernel H → ℕ → Option ℕ × Sched → Option (ℕ × Kernel H)
  unfolding start_idle
  start_first k now (none, s) = start_idle (record k { sched = s }) s.idle_task
  start_first k now (some t, s) = some (
    (s.task_of t).psp,
    record k { sched = modify (record s { curr = some t }) t (start_running now) },
  )

  unfoldable pub start_with : ℕ → Option (Kernel H) → Option (ℕ × Kernel H)
  unfolding start_first
  start_with now none = none
  start_with now (some k) = start_first k now (heap_pop_min k.sched)

  unfoldable pub scheduler_start : Kernel H → ℕ → ℕ → Option (ℕ × Kernel H)
  unfolding start_with task_create_idle
  scheduler_start k idle_function now = start_with now (
      if k.sched.count == 0 || is_null k.sched.idle_task
      then task_create_idle k idle_function
      else some k)

-- `scheduler_init`: everything is 0 or NULL, and the slots are linked in their order.
abbrev empty_task : Task
empty_task = record {
  psp = 0;
  stack_ptr = none;
  next = none;
  stack_size = 0;
  vruntime = 0;
  total_cpu_ticks = 0;
  last_switch_tick = 0;
  sleep_until_tick = 0;
  time_slice = 0;
  notify_val = 0;
  event_mask = 0;
  heap_index = some 0;
  task_id = 0;
  state = TaskState.unused;
  is_idle = false;
  weight = 0;
  base_weight = 0;
  notify_state = 0;
  event_flags = 0;
  cpu_id = 0;
}

abbrev pub scheduler_init : Sched
scheduler_init = record {
  task_of = λ i. record empty_task { next = if ltb i (max_tasks - 1) then some (i + 1) else none };
  nodes = λ i. record { task = 0; next = none };
  free_list = some 0;
  zombie_list = none;
  id_bitmap = λ i j. false;
  count = 0;
  next_cpu = 0;
  ready_heap = λ i. 0;
  heap_size = 0;
  sleep_list = none;
  idle_task = none;
  curr = none;
}
