-- ===== src/Sched/Create.antt =====
-- kernel/src/scheduler.c: the creation of tasks. What the architecture writes to a new stack is a
-- parameter. Logging is left out, and addresses of stacks do not wrap.
pub mod Ids
pub mod Fresh
pub mod Outcome
pub mod Result
use so_rtos.Base.{
  ℕ, zero, suc, Option, none, some, Bool, true, false, not, ◌&&◌, ◌||◌, ◌==◌, ltb, leb, is_null,
  points_to, ◌+◌, ◌-◌, ◌*◌, ◌%◌, ◌^◌, if◌then◌else◌, update,
}
use so_rtos.Task.{Task, TaskState, WaitNode, max_tasks, max_cpus, base_slice_ticks, is_unused}
use so_rtos.Sched.{Sched, modify}
use so_rtos.Sched.Heap.{heap_insert, heap_remove, heap_pop_min, get_min_vruntime}
use so_rtos.Sched.Sleep.{set_state, set_next, next_of}
use so_rtos.Sched.Block.{is_id_used, mark_id, find_task, delete_found}
use so_rtos.Sched.Weight.{at_least_one}
use so_rtos.Sched.Collect.{Allocator, Kernel, take_slot, return_slot, task_garbage_collection}

-- `STACK_MIN_SIZE_BYTES`, `STACK_MAX_SIZE_BYTES`, `STACK_CANARY`, `PLATFORM_STACK_ALIGNMENT`,
-- `STACK_SIZE_512B`, `TASK_WEIGHT_IDLE`.
abbrev pub stack_min_size : ℕ
stack_min_size = 512

abbrev pub stack_max_size : ℕ
stack_max_size = 8192

abbrev pub stack_canary : ℕ
stack_canary = 0xDEAD_BEEF

abbrev pub stack_alignment : ℕ
stack_alignment = 8

abbrev pub task_weight_idle : ℕ
task_weight_idle = 1

-- `(size + align_mask) & ~align_mask`.
abbrev pub align_stack : ℕ → ℕ
align_stack size = (size + (stack_alignment - 1)) - (size + (stack_alignment - 1)) % stack_alignment

-- `arch_initialize_stack`, from the end of the stack, the function and its argument: the saved
-- stack pointer, and the memory with the first frame.
abbrev pub InitStack : Type 0
InitStack = ℕ → ℕ → ℕ → (ℕ → ℕ) → ℕ × (ℕ → ℕ)

-- What a creation is asked for; `func` is `none` for NULL.
pub record Request : Type 0 where
  pub func : Option ℕ
  pub arg : ℕ
  pub size : ℕ
  pub weight : ℕ

-- The search for the first free ID.
unfoldable pub first_free_id : ℕ → Sched → ℕ → Option ℕ
first_free_id zero s id = none
first_free_id (suc rounds) s id =
    let rest = first_free_id rounds s (suc id) in if is_id_used s id then rest else some id

-- The fields of a new task before its ID is found.
abbrev pub with_stack : ℕ → ℕ → ℕ → Task → Task
with_stack stack size psp t = record t {
  stack_ptr = some stack;
  stack_size = size;
  psp = psp;
  state = TaskState.ready;
  is_idle = false;
  task_id = 0;
}

-- The other fields.
abbrev pub with_start : Sched → ℕ → ℕ → Task → Task
with_start s id weight t = record t {
  task_id = id;
  sleep_until_tick = 0;
  notify_val = 0;
  notify_state = 0;
  event_mask = 0;
  event_flags = 0;
  cpu_id = s.next_cpu;
  weight = weight;
  base_weight = weight;
  time_slice = weight * base_slice_ticks;
  vruntime = get_min_vruntime s;
  heap_index = none;
  total_cpu_ticks = 0;
  last_switch_tick = 0;
}

-- A task that has its ID is set up, queued and counted.
unfoldable pub enlist : Sched → ℕ → ℕ → ℕ → Sched
enlist s t id weight =
    let s₁ =
      modify (record (mark_id true s id) { next_cpu = (s.next_cpu + 1) % max_cpus }) t
        (with_start s id (at_least_one weight)) in
    let s₂ = heap_insert s₁ t in record s₂ { count = (s₂.count + 1) % 2 ^ 32 }

module _ {H : Type 0} (alloc : Allocator H) (init_stack : InitStack) where
  -- From the stack to the end of `task_create`; the result is the ID, or `none` for -1.
  -- Without a free ID the slot goes back as it is, in the ready state. A stack of the heap is
  -- freed then, a static one is not.
  unfoldable pub give_id : Kernel H → ℕ → ℕ → ℕ → Bool → Option ℕ → Option ℕ × Kernel H
  unfolding enlist
  give_id k t stack weight owned none = (
    none,
    record k {
      sched = return_slot k.sched t;
      heap = if owned then alloc.free k.heap stack else k.heap;
    },
  )
  give_id k t stack weight owned (some id) = (
    some id,
    record k { sched = enlist k.sched t id weight; words = update k.words stack stack_canary },
  )

  unfoldable pub set_up : Kernel H → ℕ → ℕ → ℕ → ℕ → ℕ → ℕ → Bool → Option ℕ × Kernel H
  unfolding give_id
  set_up k t stack size func arg weight owned =
      let (psp, words) = init_stack (stack + size) func arg k.words in
      let k' = record k { sched = modify k.sched t (with_stack stack size psp); words = words } in
      give_id k' t stack weight owned (first_free_id max_tasks k'.sched 1)

  -- The second try for a stack, behind a collection.
  unfoldable pub retry_stack : Kernel H → ℕ → ℕ → ℕ → ℕ → ℕ → Option ℕ × H → Option ℕ × Kernel H
  unfolding set_up
  retry_stack k t size func arg weight (none, heap) =
      (none, record k { sched = return_slot k.sched t; heap = heap })
  retry_stack k t size func arg weight (some stack, heap) =
      set_up (record k { heap = heap }) t stack size func arg weight true

  unfoldable pub retry_slot : Kernel H → ℕ → ℕ → ℕ → ℕ → Option ℕ → Option ℕ × Kernel H
  unfolding retry_stack
  retry_slot k size func arg weight none = (none, k)
  retry_slot k size func arg weight (some t) =
      retry_stack (record k { sched = take_slot k.sched t }) t size func arg weight
        (alloc.malloc k.heap size)

  -- The first try.
  unfoldable pub try_stack : Kernel H → ℕ → ℕ → ℕ → ℕ → ℕ → Option ℕ × H → Option ℕ × Kernel H
  unfolding retry_slot
  try_stack k t size func arg weight (none, heap) =
      let k' =
        task_garbage_collection alloc (record k { sched = return_slot k.sched t; heap = heap }) in
      retry_slot k' size func arg weight k'.sched.free_list
  try_stack k t size func arg weight (some stack, heap) =
      set_up (record k { heap = heap }) t stack size func arg weight true

  unfoldable pub try_slot : Kernel H → ℕ → ℕ → ℕ → ℕ → Option ℕ → Option ℕ × Kernel H
  unfolding try_stack
  try_slot k size func arg weight none = (none, k)
  try_slot k size func arg weight (some t) =
      try_stack (record k { sched = take_slot k.sched t }) t size func arg weight
        (alloc.malloc k.heap size)

  -- The collection when there is no free slot.
  unfoldable pub with_slots : Kernel H → Kernel H
  with_slots k = if is_null k.sched.free_list then task_garbage_collection alloc k else k

  -- `task_create`.
  unfoldable pub create_for : Kernel H → Request → Option ℕ → Option ℕ × Kernel H
  unfolding try_slot with_slots
  create_for k r none = (none, k)
  create_for k r (some func) =
      let k' = with_slots k in
      if ltb r.size stack_min_size || ltb stack_max_size r.size
      then (none, k)
      else try_slot k' (align_stack r.size) func r.arg r.weight k'.sched.free_list

  unfoldable pub task_create : Kernel H → Request → Option ℕ × Kernel H
  unfolding create_for
  task_create k r = create_for k r r.func

  -- `task_create_static`, on the buffer at the given address.
  unfoldable pub static_slot : Kernel H → ℕ → ℕ → ℕ → ℕ → ℕ → Option ℕ → Option ℕ × Kernel H
  unfolding set_up
  static_slot k stack size func arg weight none = (none, k)
  static_slot k stack size func arg weight (some t) =
      set_up (record k { sched = take_slot k.sched t }) t stack size func arg weight false

  unfoldable pub create_static_for : Kernel H → Request → Option ℕ → Option ℕ → Option ℕ × Kernel H
  unfolding static_slot with_slots
  create_static_for k r none buffer = (none, k)
  create_static_for k r (some func) none = (none, k)
  create_static_for k r (some func) (some addr) =
      let offset = align_stack addr - addr in
      let k' = with_slots k in
      if alloc.is_heap_pointer k.heap addr
        || ltb r.size stack_min_size
        || leb r.size offset
        || ltb (r.size - offset) stack_min_size
      then (none, k)
      else static_slot k' (align_stack addr) (r.size - offset) func r.arg r.weight
          k'.sched.free_list

  unfoldable pub task_create_static : Kernel H → Request → Option ℕ → Option ℕ × Kernel H
  unfolding create_static_for
  task_create_static k r buffer = create_static_for k r r.func buffer
