-- ===== src/Sched/Block.antt =====
-- kernel/src/scheduler.c: blocking, unblocking and the changes of a task's state. A `task_t *`
-- argument is an address: no caller modelled here passes NULL.
use so_rtos.Base.{
  ℕ, zero, suc, Option, none, some, Bool, true, false, not, ◌&&◌, ◌||◌, ltb, leb, if◌then◌else◌,
  update, ◌==◌, ◌-◌, ◌/◌, ◌%◌,
}
use so_rtos.Task.{Task, TaskState, max_tasks, max_cpus, is_ready, is_running, is_unused, is_zombie}
use so_rtos.Sched.{Sched, modify}
use so_rtos.Sched.Heap.{heap_insert, heap_remove}
use so_rtos.Sched.Sleep.{
  set_state, set_next, end_sleep, requeue, unblock_task_locked, remove_from_sleep_list,
}

-- The guard `if (cpu >= MAX_CPUS) return;`.
abbrev pub on_cpu : Sched → ℕ → Sched → Sched
on_cpu s task after = if leb max_cpus (s.task_of task).cpu_id then s else after

-- `task_block`.
unfoldable pub task_block : Sched → ℕ → Sched
task_block s task = on_cpu s task (
    if not (is_unused (s.task_of task).state) && not (s.task_of task).is_idle
    then modify (if is_ready (s.task_of task).state then heap_remove s task else s) task
        (set_state TaskState.blocked)
    else s)

-- `task_unblock`.
unfoldable pub task_unblock : Sched → ℕ → Sched
task_unblock s task = on_cpu s task (unblock_task_locked s task)

-- `task_block_current`, up to its `platform_yield`.
unfoldable pub task_block_current : Sched → Sched
task_block_current s = elim s.curr [
  | none ↦ s
  | some c ↦
      if not (is_unused (s.task_of c).state) && not (s.task_of c).is_idle
      then modify s c (set_state TaskState.blocked)
      else s
]

-- `BITMAP_IDX`, `BITMAP_BIT`, `IS_ID_USED`, `MARK_ID_USED`, `MARK_ID_FREE`.
abbrev pub bitmap_idx : ℕ → ℕ
bitmap_idx id = (id - 1) / 64

abbrev pub bitmap_bit : ℕ → ℕ
bitmap_bit id = (id - 1) % 64

unfoldable pub is_id_used : Sched → ℕ → Bool
is_id_used s id = s.id_bitmap (bitmap_idx id) (bitmap_bit id)

unfoldable pub mark_id : Bool → Sched → ℕ → Sched
mark_id used s id = record s {
  id_bitmap =
      update s.id_bitmap (bitmap_idx id)
        (update (s.id_bitmap (bitmap_idx id)) (bitmap_bit id) used);
}

abbrev pub set_task_id : ℕ → Task → Task
set_task_id id t = record t { task_id = id }

-- What `task_set_state`, `_task_delete_locked` and `task_exit` do to a task that is gone: its ID is
-- freed, and it joins the zombie list.
unfoldable pub bury : Sched → ℕ → Sched
unfolding mark_id
bury s task =
    let id = (s.task_of task).task_id in
    let s' = if ltb 0 id && leb id max_tasks then mark_id false s id else s in
    record (modify (modify s' task (set_task_id 0)) task (set_next s.zombie_list)) {
      zombie_list = some task;
    }

-- The heap and the sleep list, before `task_set_state` writes the state.
abbrev pub leave_lists : Sched → ℕ → TaskState → Sched
leave_lists s task state =
    end_sleep
      (if is_ready (s.task_of task).state && not (is_ready state) then heap_remove s task else s)
      task

-- `task_set_state`.
unfoldable pub task_set_state : Sched → ℕ → TaskState → Sched
unfolding bury
task_set_state s task state = on_cpu s task (
    let s' = modify (leave_lists s task state) task (set_state state) in
    if is_ready state
    then requeue s' task
    else if is_zombie state && not (is_zombie (s.task_of task).state)
    then bury s' task
    else s')

-- `task_set_current`: the task that was running goes back to the ready queue.
unfoldable pub put_back : Sched → Option ℕ → Sched
put_back s none = s
put_back s (some old) =
    if is_running (s.task_of old).state
    then (let s' = modify s old (set_state TaskState.ready) in
        if (s.task_of old).is_idle then s' else heap_insert s' old)
    else s

unfoldable pub task_set_current : Sched → Option ℕ → Sched
unfolding put_back
task_set_current s task =
    let s' = record (put_back s s.curr) { curr = task } in
    elim task [
      | none ↦ s'
      | some new ↦
          modify (if is_ready (s'.task_of new).state then heap_remove s' new else s') new
            (set_state TaskState.running)
    ]

-- The search of the pool for a task ID: the loop of `_task_delete_locked` and `task_notify`.
unfoldable pub find_task_from : ℕ → Sched → ℕ → ℕ → Option ℕ
find_task_from zero s i task_id = none
find_task_from (suc rounds) s i task_id = elim ((s.task_of i).task_id == task_id) [
  | true ↦ some i
  | false ↦ find_task_from rounds s (suc i) task_id
]

unfoldable pub find_task : Sched → ℕ → Option ℕ
find_task s task_id = find_task_from max_tasks s 0 task_id

-- `_task_delete_locked`, on the task that was found. The result tells 0 from -1.
unfoldable pub delete_found : Sched → ℕ → Bool × Sched
unfolding bury
delete_found s task =
    if (s.task_of task).is_idle || leb max_cpus (s.task_of task).cpu_id
    then (false, s)
    else let s₁ = heap_remove s task in
      let s₂ =
        if ltb 0 (s₁.task_of task).sleep_until_tick then remove_from_sleep_list s₁ task else s₁ in
      (true, bury (modify s₂ task (set_state TaskState.zombie)) task)

unfoldable pub task_delete_locked : Sched → ℕ → Bool × Sched
unfolding delete_found
task_delete_locked s task_id = elim (find_task s task_id) [
  | none ↦ (false, s)
  | some task ↦ delete_found s task
]

-- `task_exit`, up to its loop of `platform_yield`.
unfoldable pub task_exit : Sched → Sched
unfolding bury
task_exit s = elim s.curr [ none ↦ s | some c ↦ bury (modify s c (set_state TaskState.zombie)) c ]

-- `task_delete`.
unfoldable pub task_delete : Sched → ℕ → Bool × Sched
unfolding task_delete_locked task_exit
task_delete s task_id = if task_id == 0 then (false, s) else elim s.curr [
  | none ↦ task_delete_locked s task_id
  | some c ↦
      if (s.task_of c).task_id == task_id then (true, task_exit s) else task_delete_locked s task_id
]
