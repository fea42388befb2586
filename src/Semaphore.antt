-- ===== src/Semaphore.antt =====
-- kernel/src/semaphore.c and kernel/include/semaphore.h: counting semaphores.
pub mod Tokens
use so_rtos.Base.{ℕ, zero, suc, Option, none, some, ◌-◌, ◌+◌, ltb, if◌then◌else◌}
use so_rtos.Task.{max_tasks}
use so_rtos.Sched.{Sched}
use so_rtos.Sched.Block.{task_unblock}
use so_rtos.Sched.Wait.{Call}
use so_rtos.WaitList.{Waiters, no_waiters, pop_from_wait_list, wake_first, wait_on, prepare_node}

-- `so_sem_t`.
pub record Semaphore : Type 0 where
  pub count : ℕ
  pub max_count : ℕ
  pub waiters : Waiters

-- `so_sem_init`.
abbrev pub so_sem_init : ℕ → ℕ → Semaphore
so_sem_init initial_count max_count = record {
  count = initial_count;
  max_count = max_count;
  waiters = no_waiters;
}

-- A round of the loop of `so_sem_wait`: it returns with a token or yields, and runs again when the
-- task has the processor back.
unfoldable pub sem_wait_round : Semaphore → Sched → ℕ → Call × (Semaphore × Sched)
sem_wait_round m s current =
    let (w, s') = wait_on m.waiters s current in
    if ltb 0 m.count
    then (Call.returns 0, (record m { count = m.count - 1 }, s))
    else (Call.yields, (record m { waiters = w }, s'))

-- `so_sem_wait`, with its first round.
unfoldable pub sem_wait_from : Semaphore → Sched → Option ℕ → Call × (Semaphore × Sched)
unfolding sem_wait_round
sem_wait_from m s none = (Call.returns 0, (m, s))
sem_wait_from m s (some current) = sem_wait_round m (prepare_node s current) current

unfoldable pub so_sem_wait : Semaphore → Sched → Call × (Semaphore × Sched)
unfolding sem_wait_from
so_sem_wait m s = sem_wait_from m s s.curr

-- `if (s->count < s->max_count) s->count++;`.
abbrev pub give_token : Semaphore → Semaphore
give_token m = if ltb m.count m.max_count then record m { count = m.count + 1 } else m

-- `so_sem_signal`.
unfoldable pub so_sem_signal : Semaphore → Sched → Semaphore × Sched
so_sem_signal m s =
    let (w, s') = wake_first m.waiters s in (give_token (record m { waiters = w }), s')

-- `so_sem_broadcast`: the list shrinks in each round, so that as many rounds as there are tasks are
-- enough.
unfoldable pub broadcast_popped :
    (Semaphore → Sched → Semaphore × Sched)
    → Semaphore
    → Sched
    → Option ℕ × Waiters
    → Semaphore × Sched
broadcast_popped rest m s (none, w) = (record m { waiters = w }, s)
broadcast_popped rest m s (some task, w) =
    rest (give_token (record m { waiters = w })) (task_unblock s task)

unfoldable pub broadcast_loop : ℕ → Semaphore → Sched → Semaphore × Sched
unfolding broadcast_popped
broadcast_loop zero m s = (m, s)
broadcast_loop (suc fuel) m s =
    broadcast_popped (broadcast_loop fuel) m s (pop_from_wait_list s.nodes m.waiters)

unfoldable pub so_sem_broadcast : Semaphore → Sched → Semaphore × Sched
so_sem_broadcast m s = broadcast_loop (suc max_tasks) m s
