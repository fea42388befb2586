-- ===== src/Sched/Wait.antt =====
-- kernel/src/scheduler.c: sleeping and task notifications. A call that ends in `platform_yield` is
-- split there: `yields` is the point at which another task runs.
use so_rtos.Base.{
  Option, ℕ, none, some, Bool, not, ◌&&◌, ◌||◌, ltb, leb, if◌then◌else◌, ◌==◌, ◌%◌, ◌^◌, add32,
  uint32_max,
}
use Prim.Native.Nat.{bit_or}
use so_rtos.Task.{Task, TaskState, max_cpus, is_unused, is_blocked, is_sleeping}
use so_rtos.Sched.{Sched, modify}
use so_rtos.Sched.Sleep.{
  set_state, set_sleep_until, remove_from_sleep_list, insert_into_sleep_list, unblock_task_locked,
}
use so_rtos.Sched.Block.{find_task}

-- How a call that may block ends its first part: with a value, or by yielding the processor.
pub data Call : Type 0 where
  returns : ℕ → Call
  yields : Call

-- -1 as an `int`.
abbrev pub err : ℕ
err = uint32_max

-- The task goes to sleep until the tick.
unfoldable pub fall_asleep : Sched → ℕ → ℕ → Sched
fall_asleep s curr until =
    insert_into_sleep_list
      (modify (modify (remove_from_sleep_list s curr) curr (set_sleep_until until)) curr
        (set_state TaskState.sleeping))
      curr

-- `task_sleep_ticks`; it returns 0 when the processor comes back.
unfoldable pub sleep_from : Sched → ℕ → ℕ → Option ℕ → Call × Sched
unfolding fall_asleep
sleep_from s ticks now none = (Call.returns err, s)
sleep_from s ticks now (some curr) =
    if ticks == 0 || (s.task_of curr).is_idle
    then (Call.returns err, s)
    else (Call.yields, fall_asleep s curr (add32 (now % 2 ^ 32) ticks))

unfoldable pub task_sleep_ticks : Sched → ℕ → ℕ → Call × Sched
unfolding sleep_from
task_sleep_ticks s ticks now = sleep_from s ticks now s.curr

-- `task_notify_wait`, when no notification is pending and the caller is willing to wait.
unfoldable pub wait_for_notify : Sched → ℕ → ℕ → ℕ → Sched
wait_for_notify s curr wait_ticks now =
    if wait_ticks == uint32_max
    then modify s curr (set_state TaskState.blocked)
    else modify
        (insert_into_sleep_list (modify s curr (set_sleep_until (add32 (now % 2 ^ 32) wait_ticks)))
          curr)
        curr (set_state TaskState.sleeping)

-- `task_notify_wait` from its wake-up to its end.
abbrev pub clear_notify : Task → Task
clear_notify t = record t { notify_state = 0; notify_val = 0 }

unfoldable pub notify_wait_end : Sched → ℕ → Bool → ℕ → ℕ × Sched
notify_wait_end s curr clear_on_exit wait_ticks =
    let val = (s.task_of curr).notify_val in
    let s₁ = if clear_on_exit then modify s curr clear_notify else s in
    (
      val,
      if ltb 0 wait_ticks && not (wait_ticks == uint32_max)
          then modify s₁ curr (set_sleep_until 0)
          else s₁,
    )

-- `task_notify_wait` up to its `platform_yield`, or to its end if it does not yield.
unfoldable pub notify_wait_from : Sched → Bool → ℕ → ℕ → Option ℕ → Call × Sched
unfolding wait_for_notify notify_wait_end
notify_wait_from s clear_on_exit wait_ticks now none = (Call.returns 0, s)
notify_wait_from s clear_on_exit wait_ticks now (some curr) =
    let pending = not ((s.task_of curr).notify_state == 0) in
    let s' = if pending then s else wait_for_notify s curr wait_ticks now in
    let (val, s″) = notify_wait_end s' curr clear_on_exit wait_ticks in
    if not pending && wait_ticks == 0
    then (Call.returns 0, s)
    else if is_blocked (s'.task_of curr).state || is_sleeping (s'.task_of curr).state
    then (Call.yields, s')
    else (Call.returns val, s″)

unfoldable pub task_notify_wait : Sched → Bool → ℕ → ℕ → Call × Sched
unfolding notify_wait_from
task_notify_wait s clear_on_exit wait_ticks now =
    notify_wait_from s clear_on_exit wait_ticks now s.curr

abbrev pub notified : ℕ → Task → Task
notified value t = record t { notify_val = bit_or t.notify_val value; notify_state = 1 }

-- `task_notify`.
unfoldable pub notify_found : Sched → ℕ → ℕ → Sched
notify_found s target value =
    if leb max_cpus (s.task_of target).cpu_id || is_unused (s.task_of target).state
    then s
    else unblock_task_locked (modify s target (notified value)) target

unfoldable pub task_notify : Sched → ℕ → ℕ → Sched
unfolding notify_found
task_notify s task_id value =
    if task_id == 0
    then s
    else elim (find_task s task_id) [ none ↦ s | some target ↦ notify_found s target value ]
