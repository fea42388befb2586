-- ===== src/Tests.antt =====
-- Wait lists, semaphores and mutexes on a concrete state, with the theorems at it.
mod Stores
mod Events
mod Creation
mod Shell
mod Memory
use so_rtos.Base.{
  if◌then◌else◌, false, ◌==◌, ℕ, ◌≡◌, ◌≢◌, ◌≤◌, refl, arith, true, Option, none, some, [], ◌∷◌,
  ◌++◌, inr, update, ◌+◌,
}
use so_rtos.Chain.{contains}
use so_rtos.Task.{Task, TaskState}
use so_rtos.Sched.{Sched}
use so_rtos.Sched.Heap.Swap.{rank}
use so_rtos.Sched.Tests.{blank, sample}
use so_rtos.Sched.Wait.{Call}
use so_rtos.Sched.Invariant.{IsValid, state_of}
use so_rtos.WaitList.{
  Waiters, no_waiters, pop_from_wait_list, add_to_wait_list, remove_task_from_list, wake_first,
  wait_on, prepare_node,
}
use so_rtos.WaitList.Order.{IsWaitList, pop_from_wait_list-IsWaitList, add_to_wait_list-IsWaitList}
use so_rtos.WaitList.Remove.{remove_task_from_list-IsWaitList}
use so_rtos.WaitList.Wake.{Waiting, Woke, Joined, wake_first-Woke, wait_on-Joined}
use so_rtos.Semaphore.{Semaphore, so_sem_signal, so_sem_wait, so_sem_broadcast}
use so_rtos.Semaphore.Tokens.{
  Emptied, so_sem_signal-Woke, so_sem_wait-takes, so_sem_wait-Joined, so_sem_broadcast-Emptied,
}
use so_rtos.Mutex.{Mutex, so_mutex_lock, so_mutex_unlock}
use so_rtos.Mutex.Owner.{weight_of}
use so_rtos.Mutex.HandOver.{so_mutex_lock-takes, so_mutex_lock-Joined, so_mutex_unlock-hands_over}
use so_rtos.Queue.{
  Queue, queue_push, queue_pop, queue_push_from_isr, queue_reset, rejoin, notify_callback,
}
use so_rtos.Queue.Ring.{bytes, contents, IsRing}
use so_rtos.Queue.Fifo.{
  queue_push-contents, queue_pop-contents, rejoin-Joined, queue_push_from_isr-contents,
}
use so_rtos.Queue.Reset.{AllWoke, queue_reset-AllWoke}
use so_rtos.Mempool.{Mempool, mempool_create, mempool_alloc, mempool_free}
use so_rtos.Mempool.Blocks.{
  IsPool, blocks, mempool_create-IsPool, mempool_alloc-IsPool, mempool_free-IsPool,
}

-- Task 4 is blocked, beside the tasks of `sample`; task 1 runs.
abbrev blocker : Task
blocker = record blank {
  task_id = 5;
  state = TaskState.blocked;
  vruntime = 4;
  weight = 30;
  base_weight = 30;
  time_slice = 60;
}

abbrev crowd : Sched
crowd = record sample { task_of = update sample.task_of 4 blocker }

crowd-IsValid : IsValid 0 crowd (3 ∷ [])
unfolding rank
crowd-IsValid = record {
  heap = record {
    bounded = omega arith;
    indexed = record { slots = λ i p. ground arith; tasks = λ t i e. ground arith };
    windowed = λ i p. omega arith;
    ordered = λ c p q. absurd (omega arith);
  };
  sleep = record { chain = (refl, refl); distinct = (refl, tt); short = omega arith };
  pool = λ t h. ground arith;
  fits = λ t h. ground arith;
  floor = omega arith;
  queued = λ t. ground arith;
  sleeping = λ t. ground arith;
}

abbrev one_waiter : Waiters
one_waiter = record { head = some 4; tail = some 4 }

one_waiter-IsWaitList : IsWaitList crowd.nodes one_waiter (4 ∷ [])
one_waiter-IsWaitList = record {
  chain = (refl, refl);
  tail = refl;
  distinct = (refl, tt);
  short = omega arith;
  owned = λ t h. ground arith;
}

crowd-Waiting : Waiting 0 crowd (3 ∷ []) one_waiter (4 ∷ [])
crowd-Waiting = record {
  valid = crowd-IsValid;
  list = one_waiter-IsWaitList;
  blocked = λ t h. ground arith;
  wakeable = λ t h. ground arith;
}

nobody-Waiting : Waiting 0 crowd (3 ∷ []) no_waiters []
nobody-Waiting = record {
  valid = crowd-IsValid;
  list = record {
    chain = refl;
    tail = refl;
    distinct = tt;
    short = omega arith;
    owned = λ t h. cc;
  };
  blocked = λ t h. cc;
  wakeable = λ t h. cc;
}

remove_task_from_list-IsWaitList_example :
    let (nodes, w) = remove_task_from_list crowd.nodes one_waiter 4 in IsWaitList nodes w []
remove_task_from_list-IsWaitList_example =
    remove_task_from_list-IsWaitList crowd.nodes one_waiter (4 ∷ []) 4 one_waiter-IsWaitList

abbrev semaphore : ℕ → Semaphore
semaphore n = record { count = n; max_count = 5; waiters = one_waiter }

so_sem_signal-Woke_example :
    let (m, s) = so_sem_signal (semaphore 2) crowd in
    Woke 0 crowd s (3 ∷ []) m.waiters (4 ∷ []) × (m.count ≡ 3) × (m.count ≤ m.max_count)
so_sem_signal-Woke_example =
    so_sem_signal-Woke 0 (semaphore 2) crowd (3 ∷ []) (4 ∷ []) crowd-Waiting (omega arith)

so_sem_broadcast-Emptied_example :
    let (m, s) = so_sem_broadcast (semaphore 5) crowd in
    Emptied 0 (semaphore 5) m crowd s (3 ∷ []) (4 ∷ [])
so_sem_broadcast-Emptied_example =
    so_sem_broadcast-Emptied 0 (semaphore 5) crowd (3 ∷ []) (4 ∷ []) crowd-Waiting (omega arith)

abbrev mutex : Option ℕ → Mutex
mutex owner = record { owner = owner; waiters = one_waiter }

so_mutex_lock-Joined_example :
    let (call, (m, s)) = so_mutex_lock (mutex (some 2)) crowd in
    (call ≡ Call.yields)
    × (m.owner ≡ some 2)
    × Waiting 0 s (3 ∷ []) m.waiters (4 ∷ 1 ∷ [])
    × ((t : ℕ) → t ≢ 1 → state_of s t ≡ state_of crowd t)
    × (weight_of crowd 1 ≤ weight_of s 2)
so_mutex_lock-Joined_example =
    so_mutex_lock-Joined 0 1 (mutex (some 2)) crowd (3 ∷ []) (4 ∷ []) crowd-Waiting refl refl 2 refl
      (omega arith) (omega arith) refl (refl, refl)

so_mutex_unlock-hands_over_example :
    let (m, s) = so_mutex_unlock (mutex (some 1)) crowd in
    (m.owner ≡ some 4)
    × Waiting 0 s (3 ∷ []) m.waiters []
    × ((t : ℕ) → some 4 ≡ some t → state_of s t ≡ TaskState.ready)
    × ((t : ℕ) → (some 4 ≡ some t → ⊥) → state_of s t ≡ state_of crowd t)
    × ((n t : ℕ) → some 4 ≡ some n → contains [] t ≡ true → weight_of s t ≤ weight_of s n)
so_mutex_unlock-hands_over_example =
    so_mutex_unlock-hands_over 0 1 (mutex (some 1)) crowd (3 ∷ []) refl (4 ∷ []) crowd-Waiting refl
