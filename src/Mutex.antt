-- ===== src/Mutex.antt =====
-- kernel/src/mutex.c and kernel/include/mutex.h: mutexes with hand-over and weight inheritance.
pub mod Owner
pub mod HandOver
use so_rtos.Base.{
  ℕ, zero, suc, Option, none, some, Bool, true, false, ◌==◌, ltb, is_null, if◌then◌else◌,
}
use so_rtos.Task.{WaitNode, max_tasks}
use so_rtos.Sched.{Sched}
use so_rtos.Sched.Block.{task_unblock}
use so_rtos.Sched.Wait.{Call}
use so_rtos.Sched.Weight.{task_get_weight, task_boost_weight, task_restore_base_weight}
use so_rtos.WaitList.{Waiters, no_waiters, next_in, pop_from_wait_list, wait_on, prepare_node}

-- `so_mutex_t`.
pub record Mutex : Type 0 where
  pub owner : Option ℕ
  pub waiters : Waiters

-- `so_mutex_init`.
abbrev pub so_mutex_init : Mutex
so_mutex_init = record { owner = none; waiters = no_waiters }

-- `_get_max_waiter_weight`, from the greatest weight seen so far.
unfoldable pub max_weight_from : ℕ → Sched → ℕ → Option ℕ → ℕ
max_weight_from zero s max_weight p = max_weight
max_weight_from (suc fuel) s max_weight none = max_weight
max_weight_from (suc fuel) s max_weight (some curr) =
    let w = task_get_weight s (s.nodes curr).task in
    max_weight_from fuel s (if ltb max_weight w then w else max_weight) (next_in s.nodes curr)

unfoldable pub get_max_waiter_weight : Sched → Option ℕ → ℕ
get_max_waiter_weight s head = max_weight_from max_tasks s 0 head

-- The owner inherits the weight if it is greater than its own.
abbrev pub boost_to : Sched → ℕ → ℕ → Sched
boost_to s task weight =
    if ltb (task_get_weight s task) weight then task_boost_weight s task weight else s

-- A round of the loop of `so_mutex_lock`; it runs again when the task has the processor back.
unfoldable pub lock_round : Mutex → Sched → ℕ → Option ℕ → Call × (Mutex × Sched)
lock_round m s current none = (Call.returns 0, (record m { owner = some current }, s))
lock_round m s current (some owner) =
    let (w, s') = wait_on m.waiters (boost_to s owner (task_get_weight s current)) current in
    if owner == current
    then (Call.returns 0, (m, s))
    else (Call.yields, (record m { waiters = w }, s'))

-- `so_mutex_lock`, with its first round.
unfoldable pub mutex_lock_from : Mutex → Sched → Option ℕ → Call × (Mutex × Sched)
unfolding lock_round
mutex_lock_from m s none = (Call.returns 0, (m, s))
mutex_lock_from m s (some current) = lock_round m (prepare_node s current) current m.owner

unfoldable pub so_mutex_lock : Mutex → Sched → Call × (Mutex × Sched)
unfolding mutex_lock_from
so_mutex_lock m s = mutex_lock_from m s s.curr

-- `m->owner == current`; both may be NULL.
unfoldable pub is_owner : Option ℕ → Option ℕ → Bool
is_owner none current = is_null current
is_owner (some owner) none = false
is_owner (some owner) (some current) = owner == current

-- `task_restore_base_weight` ignores NULL.
unfoldable pub restore_weight : Sched → Option ℕ → Sched
unfolding task_restore_base_weight
restore_weight s none = s
restore_weight s (some current) = task_restore_base_weight s current

-- The hand-over to the first waiter, or to nobody.
unfoldable pub hand_over : Mutex → Sched → Option ℕ × Waiters → Mutex × Sched
hand_over m s (none, w) = (record { owner = none; waiters = w }, s)
hand_over m s (some next, w) = (
  record { owner = some next; waiters = w },
  task_unblock (boost_to s next (get_max_waiter_weight s w.head)) next,
)

-- `so_mutex_unlock`.
unfoldable pub so_mutex_unlock : Mutex → Sched → Mutex × Sched
unfolding is_owner restore_weight hand_over
so_mutex_unlock m s =
    let s' = restore_weight s s.curr in
    if is_owner m.owner s.curr
    then hand_over m s' (pop_from_wait_list s'.nodes m.waiters)
    else (m, s)
