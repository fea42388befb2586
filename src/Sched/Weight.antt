-- ===== src/Sched/Weight.antt =====
-- kernel/src/scheduler.c: weights and their inheritance. (The callers' NULL checks are on pointers
-- that are never NULL where the kernel calls these.)
use so_rtos.Base.{ℕ, ltb, if◌then◌else◌, ◌==◌}
use so_rtos.Sched.{Sched, modify}

abbrev pub at_least_one : ℕ → ℕ
at_least_one weight = if weight == 0 then 1 else weight

-- `task_get_weight`.
abbrev pub task_get_weight : Sched → ℕ → ℕ
task_get_weight s t = (s.task_of t).weight

-- `task_set_weight`.
unfoldable pub task_set_weight : Sched → ℕ → ℕ → Sched
task_set_weight s t weight =
    modify s t λ x. record x { weight = at_least_one weight; base_weight = at_least_one weight }

-- `task_restore_base_weight`.
unfoldable pub task_restore_base_weight : Sched → ℕ → Sched
task_restore_base_weight s t = modify s t λ x. record x { weight = x.base_weight }

-- `task_boost_weight`.
unfoldable pub task_boost_weight : Sched → ℕ → ℕ → Sched
task_boost_weight s t weight =
    if ltb (task_get_weight s t) (at_least_one weight)
    then modify s t (λ x. record x { weight = at_least_one weight })
    else s
