-- ===== src/Lib.antt =====
-- soRTOS, a small real-time kernel in C: a model of its scheduling core.
--
-- The kernel keeps a pool of tasks (kernel/src/scheduler.c). A ready task stands in a binary heap
-- ordered by virtual runtime, a sleeping one on a list ordered by wake-up tick, a blocked one on
-- the wait list of a queue, a mutex, a semaphore or an event group. The tick interrupt wakes
-- sleepers and asks for a switch; the switch charges the task that ran, puts it back and takes the
-- root of the heap. The other parts call the scheduler through task_block_current, task_unblock
-- and the wait-list helpers.
--
-- Correspondence. Base, Chain: shared names, and singly linked lists as chains through a `next`
-- function. Task: task_t, wait_node_t and their constants (kernel/include/scheduler.h,
-- config/project_config.h). Sched: the globals of kernel/src/scheduler.c as one record, with the
-- task pool as a function from pointers (numbers) to tasks and NULL as `none`. Sched/Vruntime:
-- VRUNTIME_LT. Sched/Heap: _swap_tasks, _heap_up, _heap_down, _heap_insert, _heap_pop_min,
-- _heap_remove, _get_min_vruntime. Sched/Sleep: the sleep list, wake-ups and _unblock_task_locked.
-- Sched/Block: task_block, task_unblock, task_set_state, task_set_current, deletion and the zombie
-- list. Sched/Switch: schedule_next_task and scheduler_tick. Sched/Wait: task_sleep_ticks and task
-- notifications. Sched/Weight: weights. Sched/Collect: the slots of the pool and the collection of
-- deleted tasks. Sched/Create: task_create and task_create_static. Sched/Start: scheduler_init,
-- scheduler_start and the idle task. Sched/StackCheck: task_check_stack_overflow. WaitList: the lists of waiting tasks, whose functions
-- kernel/src/queue.c, kernel/src/mutex.c, kernel/src/semaphore.c and, but for one that takes the
-- first waiter, kernel/src/event_group.c each define alike. EventGroup: kernel/src/event_group.c.
-- Text: kernel/src/utils.c. Cli: kernel/src/cli.c, with cli_printf in Cli, the line editor of
-- cli_task_entry in Cli/Edit, and the commands and the splitting of a line in Cli/Commands. Queue,
-- Semaphore and Mutex: those files, with the queue's buffer as bytes at offsets. Mempool:
-- kernel/src/mempool.c, with the links in free blocks as a function from their addresses. Timer:
-- kernel/src/timer.c, whose walks take as many rounds as there may be timers. The children of
-- these modules hold the proofs; Sched/Tests and Tests concrete states and the theorems at them.
--
-- Conventions. A machine word is a number below 2 ^ w with its wrap-around written out. A function
-- that runs under a spin lock is one step from state to state, and a function that yields between
-- two critical sections is one definition for each of them. The build modelled is the one of
-- config/project_config.h: one CPU, so that a task's cpu_id selects the same context. Calls of the
-- logger only record what happened and are left out. The size of the pool, 58 tasks, bounds the
-- walks of the sleep list; the heap walk upwards takes at most as many rounds as the index it
-- starts at, the one downwards at most as many as the heap has entries. The virtual runtimes
-- compared lie in a window of half the 64-bit circle past a base, which the invariant states.
--
-- A call that may block is modelled up to its platform_yield, after which the same round of its
-- loop runs again; push_round, pop_round, lock_round and sem_wait_round are those rounds. The list
-- of waiters holds each task at most once, so that 58 rounds are enough for the walks of it, and
-- one more for the broadcast's last look; queue_push_arr writes an item in each round that does
-- not block, so that one more round than there are items is enough. What a queue's callback does
-- to the scheduler and the two blocks that the allocator gives to queue_create are parameters.
--
-- Alloc: kernel/src/allocator.c. A block is named by the address of its header, and a pool that is
-- too small is `none`. The highest bit of a word is found in at most 31 halvings.
--
-- The walk of an event group's waiters takes 58 rounds too, and so does the collection of deleted
-- tasks, since each is a list of different tasks of the pool. cli_printf reads a character of its
-- format in each round, and takes one round more than the format is long; where a format ends inside
-- a directive, the loop goes on in the memory behind it, which is a parameter. cli_tokenize takes its
-- rounds from the length of the line. The polling loops of Text take a round for each count of
-- their timeout.
--
-- The allocator, as the scheduler uses it, is a record of its three functions over a state of its
-- own, which creation and collection take as a parameter, and so is what the architecture writes to
-- a new stack. The invariant of the scheduler reads -1 as the heap index of a slot that is not in
-- use, as task_create leaves it there; scheduler_init leaves 0 in slots that were never used, which
-- no function reads before task_create overwrites it.
--
-- Not modelled: the context switch, the drivers and the boards' start-up code, which are register
-- and assembly code; the allocator's statistics and its check of the heap; the logger; the handlers
-- of the shell's commands, and its choice between a queue and a callback for input and output; the
-- demonstration.
pub mod EventGroup
pub mod Alloc
pub mod Text
pub mod Cli
pub mod Base
pub mod Chain
pub mod Task
pub mod Sched
pub mod WaitList
pub mod Queue
pub mod Semaphore
pub mod Mutex
pub mod Mempool
pub mod Timer
pub mod Tests
