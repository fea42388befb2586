-- ===== src/EventGroup.antt =====
-- kernel/src/event_group.c and kernel/include/event_group.h: event groups. Its `_add_waiter` and
-- `_remove_waiter` are the functions of WaitList.
pub mod Unlink
pub mod Pending
pub mod Serve
pub mod Join
pub mod Wait
pub mod Wake
use so_rtos.Base.{ℕ, zero, suc, Option, none, some, Bool, not, ◌==◌, if◌then◌else◌, uint32_max}
use Prim.Native.Nat.{bit_and, bit_or, bit_xor}
use so_rtos.Task.{Task, TaskState, max_tasks}
use so_rtos.Sched.{Sched, modify}
use so_rtos.Sched.Block.{task_unblock, task_set_state}
use so_rtos.Sched.Wait.{Call, task_sleep_ticks}
use so_rtos.WaitList.{
  Waiters, no_waiters, next_in, unlink_waiter, remove_task_from_list, add_to_wait_list,
  prepare_node,
}

-- `EVENT_WAIT_ALL`, `EVENT_CLEAR_ON_EXIT`, `EVENT_SATISFIED_FLAG`.
abbrev pub event_wait_all : ℕ
event_wait_all = 0x01

abbrev pub event_clear_on_exit : ℕ
event_clear_on_exit = 0x02

abbrev pub event_satisfied_flag : ℕ
event_satisfied_flag = 0x80

-- `struct event_group`.
pub record EventGroup : Type 0 where
  pub waiters : Waiters
  pub bits : ℕ

-- `event_group_create`: NULL when the allocator has no memory.
unfoldable pub event_group_create : Option ℕ → Option (ℕ × EventGroup)
event_group_create none = none
event_group_create (some eg) = some (eg, record { waiters = no_waiters; bits = 0 })

-- `task_set_event_wait`.
abbrev pub set_event_wait : ℕ → ℕ → Task → Task
set_event_wait mask flags t = record t { event_mask = mask; event_flags = flags }

-- Do the bits satisfy the wait?
unfoldable pub is_satisfied : ℕ → ℕ → ℕ → Bool
is_satisfied bits bits_to_wait flags =
    if bit_and flags event_wait_all == 0
    then not (bit_and bits bits_to_wait == 0)
    else bit_and bits bits_to_wait == bits_to_wait

-- `bits &= ~mask`.
abbrev pub without_bits : ℕ → ℕ → ℕ
without_bits bits mask = bit_and bits (bit_xor mask uint32_max)

-- `if (flags & EVENT_CLEAR_ON_EXIT) eg->bits &= ~bits_to_wait;`.
unfoldable pub take_bits : ℕ → ℕ → ℕ → ℕ
take_bits bits bits_to_wait flags =
    if bit_and flags event_clear_on_exit == 0 then bits else without_bits bits bits_to_wait

-- A satisfied waiter leaves the list, takes its bits, and is unblocked.
unfoldable pub wake_satisfied : EventGroup → Sched → Option ℕ → ℕ → EventGroup × Sched
wake_satisfied eg s prev curr =
    let task = (s.nodes curr).task in
    let flags = (s.task_of task).event_flags in
    let bits = take_bits eg.bits (s.task_of task).event_mask flags in
    let (nodes, w) = unlink_waiter s.nodes eg.waiters (some (prev, curr)) in
    (
      record { waiters = w; bits = bits },
      task_unblock
          (modify (record s { nodes = nodes }) task
            (set_event_wait bits (bit_or flags event_satisfied_flag)))
          task,
    )

-- The body of the loop of `_check_and_wake_tasks`; the last component is `prev` behind it.
unfoldable pub check_waiter : EventGroup → Sched → Option ℕ → ℕ → (EventGroup × Sched) × Option ℕ
check_waiter eg s prev curr =
    let t = s.task_of (s.nodes curr).task in
    if is_satisfied eg.bits t.event_mask t.event_flags
    then (wake_satisfied eg s prev curr, prev)
    else ((eg, s), some curr)

unfoldable pub check_loop : ℕ → EventGroup → Sched → Option ℕ → Option ℕ → EventGroup × Sched
check_loop zero eg s prev p = (eg, s)
check_loop (suc fuel) eg s prev none = (eg, s)
check_loop (suc fuel) eg s prev (some curr) =
    let ((eg', s'), prev') = check_waiter eg s prev curr in
    check_loop fuel eg' s' prev' (next_in s.nodes curr)

-- `_check_and_wake_tasks`.
unfoldable pub check_and_wake_tasks : EventGroup → Sched → EventGroup × Sched
check_and_wake_tasks eg s = check_loop max_tasks eg s none eg.waiters.head

-- `event_group_set_bits` and `event_group_set_bits_from_isr`.
unfoldable pub event_group_set_bits : EventGroup → Sched → ℕ → ℕ × (EventGroup × Sched)
event_group_set_bits eg s bits_to_set =
    let eg' = record eg { bits = bit_or eg.bits bits_to_set } in
    (eg'.bits, check_and_wake_tasks eg' s)

-- `event_group_clear_bits`.
unfoldable pub event_group_clear_bits : EventGroup → ℕ → ℕ × EventGroup
event_group_clear_bits eg bits_to_clear =
    let eg' = record eg { bits = without_bits eg.bits bits_to_clear } in (eg'.bits, eg')

-- `event_group_get_bits`.
unfoldable pub event_group_get_bits : EventGroup → ℕ
event_group_get_bits eg = eg.bits

-- `event_group_wait_bits` from its wake-up to its end.
unfoldable pub wait_bits_end : EventGroup → Sched → ℕ → Call × (EventGroup × Sched)
wait_bits_end eg s current =
    let t = s.task_of current in
    let (nodes, w) = remove_task_from_list s.nodes eg.waiters current in
    if bit_and t.event_flags event_satisfied_flag == 0
    then (Call.returns 0, (record eg { waiters = w }, record s { nodes = nodes }))
    else (Call.returns t.event_mask, (eg, s))

-- The wait behind the critical section, which ends at once if `task_sleep_ticks` does. Nothing runs
-- between the two here.
unfoldable pub after_sleep : EventGroup → ℕ → Call × Sched → Call × (EventGroup × Sched)
unfolding wait_bits_end
after_sleep eg current (Call.returns e, s) = wait_bits_end eg s current
after_sleep eg current (Call.yields, s) = (Call.yields, (eg, s))

unfoldable pub block_on : EventGroup → Sched → ℕ → ℕ → ℕ → Call × (EventGroup × Sched)
unfolding after_sleep
block_on eg s current timeout_ticks now =
    if timeout_ticks == uint32_max
    then (Call.yields, (eg, s))
    else after_sleep eg current (task_sleep_ticks s timeout_ticks now)

-- Behind the test for the bits, when they are not there.
unfoldable pub join_waiters : EventGroup → Sched → ℕ → ℕ → ℕ → Call × (EventGroup × Sched)
unfolding block_on
join_waiters eg s current timeout_ticks now =
    let (nodes, w) = add_to_wait_list s.nodes eg.waiters current in
    let eg' = record eg { waiters = w } in
    let s' = record s { nodes = nodes } in
    if timeout_ticks == 0
    then (Call.returns eg.bits, (eg', s'))
    else block_on eg' (task_set_state s' current TaskState.blocked) current timeout_ticks now

-- `event_group_wait_bits` up to the point where it yields, or to its end if it does not.
unfoldable pub wait_bits_from :
    EventGroup → Sched → ℕ → ℕ → ℕ → ℕ → Option ℕ → Call × (EventGroup × Sched)
unfolding join_waiters
wait_bits_from eg s bits_to_wait flags timeout_ticks now none = (Call.returns 0, (eg, s))
wait_bits_from eg s bits_to_wait flags timeout_ticks now (some current) =
    let s' = modify (prepare_node s current) current (set_event_wait bits_to_wait flags) in
    if is_satisfied eg.bits bits_to_wait flags
    then (Call.returns eg.bits, (record eg { bits = take_bits eg.bits bits_to_wait flags }, s'))
    else join_waiters eg s' current timeout_ticks now

unfoldable pub event_group_wait_bits :
    EventGroup → Sched → ℕ → ℕ → ℕ → ℕ → Call × (EventGroup × Sched)
unfolding wait_bits_from
event_group_wait_bits eg s bits_to_wait flags timeout_ticks now =
    wait_bits_from eg s bits_to_wait flags timeout_ticks now s.curr

-- The loop of `event_group_delete`, which wakes every waiter before the memory goes back. `wait_tail`
-- is left as it was.
unfoldable pub wake_all : ℕ → Sched → Option ℕ → Sched
wake_all zero s p = s
wake_all (suc fuel) s none = s
wake_all (suc fuel) s (some node) =
    wake_all fuel (task_unblock s (s.nodes node).task) (next_in s.nodes node)

unfoldable pub event_group_delete : EventGroup → Sched → Sched
unfolding wake_all
event_group_delete eg s = wake_all max_tasks s eg.waiters.head
