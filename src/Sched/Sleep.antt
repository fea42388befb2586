-- ===== src/Sched/Sleep.antt =====
-- kernel/src/scheduler.c: the sleep list, linked through `task->next` and sorted by wake-up tick,
-- and the return of a waking task to the ready queue. The loops walk the list with `max_tasks`
-- rounds of fuel, which is enough for a chain of distinct tasks of the pool.
pub mod Remove
pub mod Insert
use so_rtos.Base.{
  ℕ, zero, suc, Option, none, some, Bool, true, false, ◌||◌, ltb, if◌then◌else◌, points_to, is_null,
  signed_lt32,
}
use so_rtos.Task.{Task, TaskState, max_tasks, is_sleeping, is_blocked}
use so_rtos.Sched.{Sched, modify}
use so_rtos.Sched.Vruntime.{vruntime_lt}
use so_rtos.Sched.Heap.{heap_insert, get_min_vruntime}

abbrev pub set_next : Option ℕ → Task → Task
set_next p t = record t { next = p }

abbrev pub set_state : TaskState → Task → Task
set_state x t = record t { state = x }

abbrev pub set_vruntime : ℕ → Task → Task
set_vruntime v t = record t { vruntime = v }

abbrev pub set_sleep_until : ℕ → Task → Task
set_sleep_until n t = record t { sleep_until_tick = n }

abbrev pub next_of : Sched → ℕ → Option ℕ
next_of s t = (s.task_of t).next

abbrev pub wake_tick : Sched → ℕ → ℕ
wake_tick s t = (s.task_of t).sleep_until_tick

-- The loop of `_remove_from_sleep_list`: the node before `task`, or NULL.
unfoldable pub find_prev : ℕ → Sched → Option ℕ → ℕ → Option ℕ
find_prev zero s curr task = none
find_prev (suc fuel) s none task = none
find_prev (suc fuel) s (some curr) task = elim (points_to (next_of s curr) task) [
  | true ↦ some curr
  | false ↦ find_prev fuel s (next_of s curr) task
]

-- `curr->next = task->next; task->next = NULL`, if `curr` was found.
unfoldable pub unlink : Sched → ℕ → Option ℕ → Sched
unlink s task none = s
unlink s task (some curr) = modify (modify s curr (set_next (next_of s task))) task (set_next none)

-- `_remove_from_sleep_list`; no caller passes NULL.
unfoldable pub remove_from_sleep_list : Sched → ℕ → Sched
unfolding unlink
remove_from_sleep_list s task =
    if points_to s.sleep_list task
    then record (modify s task (set_next none)) { sleep_list = next_of s task }
    else unlink s task (find_prev max_tasks s s.sleep_list task)

-- The loop of `_insert_into_sleep_list`: the node to insert behind.
unfoldable pub find_slot : ℕ → Sched → ℕ → ℕ → ℕ
find_slot zero s curr task = curr
find_slot (suc fuel) s curr task = elim (next_of s curr) [
  | none ↦ curr
  | some n ↦ elim (ltb (wake_tick s n) (wake_tick s task)) [
    | true ↦ find_slot fuel s n task
    | false ↦ curr
  ]
]

-- `task->next = curr->next; curr->next = task`.
abbrev pub link_behind : Sched → ℕ → ℕ → Sched
link_behind s curr task =
    modify (modify s task (set_next (next_of s curr))) curr (set_next (some task))

-- `_insert_into_sleep_list`, on the list's head; no caller passes NULL.
unfoldable pub insert_from_head : Sched → ℕ → Option ℕ → Sched
insert_from_head s task none = record (modify s task (set_next none)) { sleep_list = some task }
insert_from_head s task (some h) =
    if ltb (wake_tick s task) (wake_tick s h)
    then record (modify s task (set_next (some h))) { sleep_list = some task }
    else link_behind s (find_slot max_tasks s h task) task

unfoldable pub insert_into_sleep_list : Sched → ℕ → Sched
unfolding insert_from_head
insert_into_sleep_list s task = insert_from_head s task s.sleep_list

-- A task that becomes ready is not left behind the queue: its runtime catches up with the least.
unfoldable pub requeue : Sched → ℕ → Sched
requeue s task =
    let min_v = get_min_vruntime s in
    heap_insert
      (if vruntime_lt (s.task_of task).vruntime min_v
        then modify s task (set_vruntime min_v)
        else s)
      task

-- `_wake_sleeping_task`.
unfoldable pub wake_sleeping_task : Sched → ℕ → Sched
unfolding requeue
wake_sleeping_task s task = requeue (modify s task (set_state TaskState.ready)) task

-- `_process_sleep_list`: wake the head while its tick has come.
unfoldable pub wake_head : (Sched → Sched) → Sched → ℕ → Option ℕ → Sched
wake_head rest s now none = s
wake_head rest s now (some curr) = elim (signed_lt32 now (wake_tick s curr)) [
  | true ↦ s
  | false ↦ rest (wake_sleeping_task (remove_from_sleep_list s curr) curr)
]

unfoldable pub process_sleep_list : ℕ → Sched → ℕ → Sched
unfolding wake_head
process_sleep_list zero s now = s
process_sleep_list (suc fuel) s now =
    wake_head (λ s'. process_sleep_list fuel s' now) s now s.sleep_list

-- A sleeping task that is woken early leaves the sleep list.
abbrev pub end_sleep : Sched → ℕ → Sched
end_sleep s task =
    if is_sleeping (s.task_of task).state
    then modify (remove_from_sleep_list s task) task (set_sleep_until 0)
    else s

-- `_unblock_task_locked`.
unfoldable pub unblock_task_locked : Sched → ℕ → Sched
unfolding requeue
unblock_task_locked s task =
    if is_blocked (s.task_of task).state || is_sleeping (s.task_of task).state
    then requeue (modify (end_sleep s task) task (set_state TaskState.ready)) task
    else s
