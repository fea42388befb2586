-- ===== src/WaitList.antt =====
-- kernel/src/queue.c, kernel/src/mutex.c and kernel/src/semaphore.c: the lists of waiting tasks, of
-- which each file has its own copy of the same functions. The nodes are those of the tasks.
pub mod Order
pub mod Remove
pub mod Wake
use so_rtos.Base.{ℕ, zero, suc, Option, none, some, ◌==◌, if◌then◌else◌, is_null, points_to, update}
use so_rtos.Task.{WaitNode, TaskState, max_tasks}
use so_rtos.Sched.{Sched}
use so_rtos.Sched.Block.{task_unblock, task_set_state}

-- `wait_head` and `wait_tail`.
pub record Waiters : Type 0 where
  pub head : Option ℕ
  pub tail : Option ℕ

abbrev pub no_waiters : Waiters
no_waiters = record { head = none; tail = none }

abbrev pub link_to : Option ℕ → WaitNode → WaitNode
link_to p n = record n { next = p }

abbrev pub set_link : (ℕ → WaitNode) → ℕ → Option ℕ → ℕ → WaitNode
set_link nodes node p = update nodes node (link_to p (nodes node))

abbrev pub next_in : (ℕ → WaitNode) → ℕ → Option ℕ
next_in nodes node = (nodes node).next

-- `_add_to_wait_list`.
unfoldable pub append_behind : (ℕ → WaitNode) → Waiters → ℕ → Option ℕ → (ℕ → WaitNode) × Waiters
append_behind nodes w node none = (nodes, record { head = some node; tail = some node })
append_behind nodes w node (some last) =
    (set_link nodes last (some node), record w { tail = some node })

unfoldable pub add_to_wait_list : (ℕ → WaitNode) → Waiters → ℕ → (ℕ → WaitNode) × Waiters
unfolding append_behind
add_to_wait_list nodes w node = append_behind (set_link nodes node none) w node w.tail

-- `_pop_from_wait_list`.
unfoldable pub pop_at : (ℕ → WaitNode) → Waiters → Option ℕ → Option ℕ × Waiters
pop_at nodes w none = (none, w)
pop_at nodes w (some node) =
    let next = next_in nodes node in
    (some (nodes node).task, record { head = next; tail = if is_null next then none else w.tail })

unfoldable pub pop_from_wait_list : (ℕ → WaitNode) → Waiters → Option ℕ × Waiters
unfolding pop_at
pop_from_wait_list nodes w = pop_at nodes w w.head

-- The walk of `_remove_task_from_list`: the node of the task and the node before it.
unfoldable pub find_waiter : ℕ → (ℕ → WaitNode) → ℕ → Option ℕ → Option ℕ → Option (Option ℕ × ℕ)
find_waiter zero nodes task prev p = none
find_waiter (suc fuel) nodes task prev none = none
find_waiter (suc fuel) nodes task prev (some curr) =
    let rest = find_waiter fuel nodes task (some curr) (next_in nodes curr) in
    if (nodes curr).task == task then some (prev, curr) else rest

unfoldable pub unlink_waiter :
    (ℕ → WaitNode) → Waiters → Option (Option ℕ × ℕ) → (ℕ → WaitNode) × Waiters
unlink_waiter nodes w none = (nodes, w)
unlink_waiter nodes w (some (none, curr)) = (
  nodes,
  record { head = next_in nodes curr; tail = if points_to w.tail curr then none else w.tail },
)
unlink_waiter nodes w (some (some prev, curr)) = (
  set_link nodes prev (next_in nodes curr),
  record w { tail = if points_to w.tail curr then some prev else w.tail },
)

-- `_remove_task_from_list`.
unfoldable pub remove_task_from_list : (ℕ → WaitNode) → Waiters → ℕ → (ℕ → WaitNode) × Waiters
unfolding find_waiter unlink_waiter
remove_task_from_list nodes w task =
    unlink_waiter nodes w (find_waiter max_tasks nodes task none w.head)

-- `node->task = current; node->next = NULL;`, at the start of each call that may wait.
abbrev pub prepare_node : Sched → ℕ → Sched
prepare_node s current = record s {
  nodes = update s.nodes current (record { task = current; next = none });
}

-- `if (task) task_unblock(task);`.
unfoldable pub unblock_if : Sched → Option ℕ → Sched
unblock_if s none = s
unblock_if s (some task) = task_unblock s task

-- The first waiter leaves the list and is unblocked.
unfoldable pub wake_first : Waiters → Sched → Waiters × Sched
unfolding unblock_if
wake_first w s = let (task, w') = pop_from_wait_list s.nodes w in (w', unblock_if s task)

-- The node of the current task joins the list, and the task blocks.
unfoldable pub wait_on : Waiters → Sched → ℕ → Waiters × Sched
wait_on w s current =
    let (nodes, w') = add_to_wait_list s.nodes w current in
    (w', task_set_state (record s { nodes = nodes }) current TaskState.blocked)
