-- ===== src/Sched/Switch.antt =====
-- kernel/src/scheduler.c: the switch to the next task, the tick interrupt, and the start.
use so_rtos.Base.{
  ℕ, Option, none, some, Bool, false, not, ◌&&◌, ◌||◌, ltb, if◌then◌else◌, is_null, ◌==◌, ◌-◌, ◌*◌,
  ◌/◌, ◌%◌, ◌^◌, add64, sub64, sub32,
}
use so_rtos.Task.{
  Task, TaskState, max_tasks, base_slice_ticks, vruntime_scaler, is_ready, is_running,
}
use so_rtos.Sched.{Sched, modify}
use so_rtos.Sched.Vruntime.{vruntime_lt}
use so_rtos.Sched.Heap.{heap_insert, heap_pop_min, get_min_vruntime}
use so_rtos.Sched.Sleep.{set_state, process_sleep_list}

-- `ctx->curr->total_cpu_ticks += now - ctx->curr->last_switch_tick`.
abbrev pub add_cpu_ticks : ℕ → Task → Task
add_cpu_ticks now t = record t {
  total_cpu_ticks = add64 t.total_cpu_ticks (sub64 now t.last_switch_tick);
}

unfoldable pub account : Sched → ℕ → Option ℕ → Sched
account s now none = s
account s now (some c) = modify s c (add_cpu_ticks now)

-- `max_slice`, `ticks_ran` and the charge on the virtual runtime, with the products of
-- `uint32_t` wrapped. A weight is never 0 (`task_create` and the setters see to it).
abbrev pub max_slice : Task → ℕ
max_slice t = t.weight * base_slice_ticks

unfoldable pub ticks_ran : Task → ℕ
ticks_ran t = if sub32 (max_slice t) t.time_slice == 0 then 1 else sub32 (max_slice t) t.time_slice

unfoldable pub charge : Task → ℕ
unfolding ticks_ran
charge t = (ticks_ran t * vruntime_scaler) % 2 ^ 32 / t.weight

-- The running task is charged and gets a new slice.
abbrev pub recharge : Task → Task
recharge t = record t { vruntime = add64 t.vruntime (charge t); time_slice = max_slice t }

unfoldable pub yield_current : Sched → Option ℕ → Sched
yield_current s none = s
yield_current s (some c) =
    if is_running (s.task_of c).state
    then (if (s.task_of c).is_idle
        then modify s c (set_state TaskState.ready)
        else heap_insert (modify (modify s c (set_state TaskState.ready)) c recharge) c)
    else s

abbrev pub run_at : ℕ → Task → Task
run_at now t = record t { state = TaskState.running; last_switch_tick = now }

-- `ctx->curr = task`, running since `now`.
abbrev pub dispatch : Sched → ℕ → ℕ → Sched
dispatch s task now = record (modify s task (run_at now)) { curr = some task }

-- How `schedule_next_task` ends: `faults` stands for reading through a NULL `ctx->curr`.
pub data Ends : Type 0 where
  settles panics faults : Ends

-- The fallback, when neither a queued task nor a ready idle task is there.
unfoldable pub stay : Sched → ℕ → Option ℕ → Ends × Sched
stay s now none = (Ends.faults, s)
stay s now (some c) =
    if is_ready (s.task_of c).state || is_running (s.task_of c).state
    then (Ends.settles, modify s c (run_at now))
    else (Ends.panics, s)

unfoldable pub idle_or_stay : Sched → ℕ → Option ℕ → Ends × Sched
unfolding stay
idle_or_stay s now none = stay s now s.curr
idle_or_stay s now (some i) =
    if is_ready (s.task_of i).state then (Ends.settles, dispatch s i now) else stay s now s.curr

unfoldable pub run_best : Option ℕ × Sched → ℕ → Ends × Sched
unfolding idle_or_stay
run_best (none, s) now = idle_or_stay s now s.idle_task
run_best (some t, s) now = (Ends.settles, dispatch s t now)

-- `schedule_next_task`; `now` is what `platform_get_ticks` returns.
unfoldable pub schedule_next_task : Sched → ℕ → Ends × Sched
unfolding account yield_current run_best
schedule_next_task s now =
    let s' = account s now s.curr in
    if s'.count == 0 && is_null s'.idle_task
    then (Ends.settles, s')
    else run_best (heap_pop_min (yield_current s' s'.curr)) now

-- The part of `scheduler_tick` that runs down the slice, and whether it has run out.
abbrev pub count_down : Task → Task
count_down t = record t { time_slice = t.time_slice - 1 }

unfoldable pub slice_at : Sched → Option ℕ → Bool × Sched
slice_at s none = (false, s)
slice_at s (some c) =
    if is_running (s.task_of c).state && not (s.task_of c).is_idle
    then (((modify s c count_down).task_of c).time_slice == 0, modify s c count_down)
    else (false, s)

unfoldable pub tick_slice : Sched → Bool × Sched
unfolding slice_at
tick_slice s = slice_at s s.curr

-- Whether a queued task should replace the current one.
unfoldable pub should_preempt : Sched → Bool
should_preempt s = elim s.curr [
  | none ↦ false
  | some c ↦
      ((s.task_of c).is_idle && ltb 0 s.heap_size)
      || vruntime_lt (get_min_vruntime s) (s.task_of c).vruntime
]

-- `scheduler_tick`: whether to reschedule, and the state after the tick.
unfoldable pub scheduler_tick : Sched → ℕ → Bool × Sched
unfolding tick_slice should_preempt
scheduler_tick s now =
    let (expired, s') = tick_slice (process_sleep_list max_tasks s (now % 2 ^ 32)) in
    (expired || should_preempt s', s')
