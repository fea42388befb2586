-- ===== src/Sched/StackCheck.antt =====
-- kernel/src/scheduler.c: the search for stacks whose lowest word is overwritten.
use so_rtos.Base.{
  ℕ, zero, suc, Option, none, some, Bool, true, false, not, ◌&&◌, ◌==◌, points_to, if◌then◌else◌,
}
use so_rtos.Task.{max_tasks, is_unused}
use so_rtos.Sched.{Sched}
use so_rtos.Sched.Block.{find_task, delete_found}
use so_rtos.Sched.Create.{stack_canary}

-- The loop of `task_check_stack_overflow`; the Boolean is `current_task_overflow`, which ends in a
-- panic. `_task_delete_locked` looks the task up by its ID again.
unfoldable pub delete_by_id : Sched → Option ℕ → Sched
delete_by_id s none = s
delete_by_id s (some t) = (delete_found s t).1

unfoldable pub is_overwritten : (ℕ → ℕ) → Option ℕ → Bool
is_overwritten words none = false
is_overwritten words (some stack) = not (words stack == stack_canary)

unfoldable pub check_stack : (ℕ → ℕ) → Sched → Bool → ℕ → Bool × Sched
unfolding delete_by_id is_overwritten
check_stack words s overflow i =
    let id = (s.task_of i).task_id in
    if not (is_unused (s.task_of i).state) && is_overwritten words (s.task_of i).stack_ptr
    then (if points_to s.curr i
        then (true, s)
        else (overflow, if id == 0 then s else delete_by_id s (find_task s id)))
    else (overflow, s)

unfoldable pub check_stacks : ℕ → (ℕ → ℕ) → Sched → Bool → ℕ → Bool × Sched
unfolding check_stack
check_stacks zero words s overflow i = (overflow, s)
check_stacks (suc rounds) words s overflow i =
    let (overflow', s') = check_stack words s overflow i in
    check_stacks rounds words s' overflow' (suc i)

unfoldable pub task_check_stack_overflow : (ℕ → ℕ) → Sched → Bool × Sched
unfolding check_stacks
task_check_stack_overflow words s = check_stacks max_tasks words s false 0
