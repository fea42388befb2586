-- ===== src/Sched/Collect.antt =====
-- kernel/src/scheduler.c: the slots of the pool, and the collection of deleted tasks. The allocator
-- is a parameter, with a state of its own.
pub mod Pool
pub mod Reclaim
use so_rtos.Base.{
  ℕ, zero, suc, Option, none, some, Bool, true, false, not, ◌&&◌, ◌||◌, ◌==◌, ltb, leb, is_null,
  points_to, ◌+◌, ◌-◌, ◌*◌, ◌%◌, ◌^◌, if◌then◌else◌, update,
}
use so_rtos.Task.{Task, TaskState, WaitNode, max_tasks, max_cpus, base_slice_ticks, is_unused}
use so_rtos.Sched.{Sched, modify}
use so_rtos.Sched.Heap.{heap_insert, heap_remove, heap_pop_min, get_min_vruntime}
use so_rtos.Sched.Sleep.{set_state, set_next, next_of}
use so_rtos.Sched.Block.{is_id_used, mark_id, find_task, delete_found}

-- What the scheduler uses of kernel/src/allocator.c.
pub record Allocator (H : Type 0) : Type 0 where
  pub malloc : H → ℕ → Option ℕ × H
  pub free : H → ℕ → H
  pub is_heap_pointer : H → ℕ → Bool

-- The scheduler, the allocator's state, and memory as words at addresses.
pub record Kernel (H : Type 0) : Type 0 where
  pub sched : Sched
  pub heap : H
  pub words : ℕ → ℕ

-- A task's slot leaves the free list, and goes back to it.
abbrev pub take_slot : Sched → ℕ → Sched
take_slot s t = modify (record s { free_list = next_of s t }) t (set_next none)

abbrev pub return_slot : Sched → ℕ → Sched
return_slot s t = record (modify s t (set_next s.free_list)) { free_list = some t }

module _ {H : Type 0} (alloc : Allocator H) where
  -- `allocator_free(t->stack_ptr)`, for a stack of the heap.
  unfoldable pub free_stack : Kernel H → ℕ → Option ℕ → Kernel H
  free_stack k t none = k
  free_stack k t (some stack) =
      if alloc.is_heap_pointer k.heap stack
      then record k {
        heap = alloc.free k.heap stack;
        sched = modify k.sched t (λ x. record x { stack_ptr = none });
      }
      else k

  -- The body of the loop of `_task_garbage_collection_locked`.
  unfoldable pub reclaim : Kernel H → ℕ → Kernel H
  unfolding free_stack
  reclaim k t =
      let k₁ = record k { sched = record k.sched { zombie_list = next_of k.sched t } } in
      let k₂ = free_stack k₁ t (k.sched.task_of t).stack_ptr in
      let s = return_slot (modify k₂.sched t (set_state TaskState.unused)) t in
      record k₂ { sched = record s { count = s.count - 1 } }

  unfoldable pub collect : ℕ → Kernel H → Option ℕ → Kernel H
  unfolding reclaim
  collect zero k p = k
  collect (suc fuel) k none = k
  collect (suc fuel) k (some t) = let k' = reclaim k t in collect fuel k' k'.sched.zombie_list

  -- `_task_garbage_collection_locked`, and `task_garbage_collection`.
  unfoldable pub task_garbage_collection : Kernel H → Kernel H
  task_garbage_collection k = collect max_tasks k k.sched.zombie_list
