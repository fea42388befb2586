-- ===== src/Tests/Stores.antt =====
-- Queues, memory pools and timers on concrete states, with the theorems at them.
use so_rtos.Base.{
  ◌||◌, if◌then◌else◌, false, ◌==◌, ℕ, ◌≡◌, refl, arith, true, Option, none, some, [], ◌∷◌, ◌++◌,
}
use so_rtos.Chain.{contains}
use so_rtos.Sched.{Sched}
use so_rtos.Sched.Wait.{Call}
use so_rtos.WaitList.{Waiters, no_waiters, wake_first, prepare_node}
use so_rtos.WaitList.Wake.{Woke}
use so_rtos.Queue.{Queue, queue_push, queue_pop, queue_push_from_isr, queue_reset, notify_callback}
use so_rtos.Queue.Ring.{bytes, contents, IsRing}
use so_rtos.Queue.Fifo.{queue_push-contents, queue_pop-contents, queue_push_from_isr-contents}
use so_rtos.Queue.Reset.{AllWoke, queue_reset-AllWoke}
use so_rtos.Mempool.{Mempool, mempool_alloc, mempool_free}
use so_rtos.Mempool.Blocks.{IsPool, mempool_alloc-IsPool, mempool_free-IsPool}
use so_rtos.Timer.{Timers, timer_insert, next_timer}
use so_rtos.Timer.Order.{IsTimerList, placed, timer_insert-IsTimerList}
use so_rtos.Tests.{crowd, one_waiter, crowd-Waiting}

-- Two items of two bytes in a ring of three slots, across its end.
abbrev ring : Waiters → Waiters → Queue
ring rx tx = record {
  buffer = λ j. j;
  item_size = 2;
  capacity = 3;
  count = 2;
  head = 2;
  tail = 1;
  rx_wait = rx;
  tx_wait = tx;
  callback = none;
  callback_arg = 0;
}

ring-IsRing : (rx tx : Waiters) → IsRing (ring rx tx)
ring-IsRing rx tx = record {
  head = omega arith;
  tail = refl;
  count = omega arith;
  size = omega arith;
}

abbrev ignore : ℕ → ℕ → Sched → Sched
ignore callback arg s = s

queue_push-contents_example :
    let q = ring one_waiter no_waiters in
    let (result, (q', s')) = queue_push ignore q crowd (λ j. 9) in
    let s₁ = prepare_node crowd 1 in
    let u = (wake_first one_waiter s₁).1 in
    (result ≡ Call.returns 0)
    × (contents q' ≡ contents q ++ (9 ∷ 9 ∷ []) ∷ [])
    × IsRing q'
    × Woke 0 s₁ u (3 ∷ []) q'.rx_wait (4 ∷ [])
    × (s' ≡ notify_callback ignore none 0 u)
queue_push-contents_example =
    queue_push-contents 0 1 (ring one_waiter no_waiters) crowd (3 ∷ []) (4 ∷ [])
      (ring-IsRing one_waiter no_waiters) refl refl ignore (λ j. 9) crowd-Waiting (omega arith)

queue_pop-contents_example :
    let q = ring no_waiters one_waiter in
    let (result, (buffer, (q', s'))) = queue_pop q crowd (λ j. 0) in
    (result ≡ Call.returns 0)
    × (contents q ≡ bytes buffer 0 2 ∷ contents q')
    × IsRing q'
    × Woke 0 (prepare_node crowd 1) s' (3 ∷ []) q'.tx_wait (4 ∷ [])
queue_pop-contents_example =
    queue_pop-contents 0 1 (ring no_waiters one_waiter) crowd (3 ∷ []) (4 ∷ [])
      (ring-IsRing no_waiters one_waiter) refl refl (λ j. 0) crowd-Waiting (omega arith)

queue_push_from_isr-contents_example :
    let q = ring one_waiter no_waiters in
    let (result, (q', s')) = queue_push_from_isr ignore q crowd (λ j. 9) in
    IsRing q' × ((result ≡ 0) × (contents q' ≡ contents q ++ (9 ∷ 9 ∷ []) ∷ []))
queue_push_from_isr-contents_example =
    queue_push_from_isr-contents ignore (ring one_waiter no_waiters) crowd (λ j. 9)
      (ring-IsRing one_waiter no_waiters)

queue_reset-AllWoke_example :
    let (q', s') = queue_reset (ring no_waiters one_waiter) crowd in
    (contents q' ≡ []) × IsRing q' × AllWoke 0 crowd s' (3 ∷ []) q'.tx_wait (4 ∷ [])
queue_reset-AllWoke_example =
    queue_reset-AllWoke 0 (ring no_waiters one_waiter) crowd (3 ∷ []) (4 ∷ [])
      (ring-IsRing no_waiters one_waiter) crowd-Waiting

-- Three blocks of eight bytes at 100, with the first one taken.
abbrev pool : Mempool
pool = record { buffer = 100; item_size = 8; count = 3; free_list = some 108 }

abbrev pool_links : ℕ → Option ℕ
pool_links p = if p == 108 then some 116 else none

pool-IsPool : IsPool pool pool_links (108 ∷ 116 ∷ [])
pool-IsPool = record {
  chain = (refl, (refl, refl));
  distinct = (refl, (refl, tt));
  inside = λ p h. ground arith;
}

mempool_alloc-IsPool_example :
    let (p, pool') = mempool_alloc pool pool_links in
    (p ≡ some 108)
    × IsPool pool' pool_links (116 ∷ [])
    × ((k : ℕ) → p ≡ some k → contains (116 ∷ []) k ≡ false)
mempool_alloc-IsPool_example = mempool_alloc-IsPool pool pool_links (108 ∷ 116 ∷ []) pool-IsPool

mempool_free-IsPool_example :
    let (pool', links) = mempool_free pool pool_links (some 100) in
    IsPool pool' links (100 ∷ 108 ∷ 116 ∷ [])
mempool_free-IsPool_example =
    mempool_free-IsPool pool pool_links (108 ∷ 116 ∷ []) 100 pool-IsPool (omega arith) (omega arith)
      refl refl

-- Timer 1 expires at 50, and timer 2 will at 30.
abbrev timers : Timers
timers = record {
  timer_of = λ t. record {
    next = none;
    expiry_tick = if t == 1 then 50 else 30;
    period_ticks = 10;
    name = 0;
    callback = none;
    arg = 0;
    autoreload = false;
    active = true;
  };
  timer_list_head = some 1;
  timer_task_id = 0;
}

timers-IsTimerList : IsTimerList 4 timers (1 ∷ [])
timers-IsTimerList = record { chain = (refl, refl); distinct = (refl, tt); short = omega arith }

timer_insert-IsTimerList_example :
    let m' = timer_insert 4 timers 2 in
    IsTimerList 5 m' (placed timers 2 (1 ∷ []))
    × ((k : ℕ) → contains (placed timers 2 (1 ∷ [])) k ≡ (2 == k || contains (1 ∷ []) k))
    × ((k : ℕ) → m'.timer_of k ≡ record (timers.timer_of k) { next = next_timer m' k })
    × (m'.timer_task_id ≡ timers.timer_task_id)
timer_insert-IsTimerList_example =
    timer_insert-IsTimerList 4 timers 2 (1 ∷ []) timers-IsTimerList refl
