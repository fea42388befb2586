-- ===== src/Queue.antt =====
-- kernel/src/queue.c and kernel/include/queue.h: bounded queues of items of a fixed size in a ring
-- buffer. Queue and item pointers are not NULL. The callback is code of the client: `call` says
-- what it does to the scheduler, given the function and its argument.
pub mod Ring
pub mod Reset
pub mod Fifo
use so_rtos.Base.{
  ℕ, zero, suc, Option, none, some, ◌-◌, ◌+◌, ◌*◌, ◌%◌, ◌^◌, ltb, leb, ◌==◌, ◌&&◌, is_null,
  if◌then◌else◌,
}
use so_rtos.Task.{max_tasks}
use so_rtos.Sched.{Sched}
use so_rtos.Sched.Wait.{Call, err}
use so_rtos.WaitList.{Waiters, no_waiters, wake_first, wait_on, prepare_node, remove_task_from_list}

-- `struct queue`; `buffer` gives the byte at each offset of the allocated block.
pub record Queue : Type 0 where
  pub buffer : ℕ → ℕ
  pub item_size : ℕ
  pub capacity : ℕ
  pub count : ℕ
  pub head : ℕ
  pub tail : ℕ
  pub rx_wait : Waiters
  pub tx_wait : Waiters
  pub callback : Option ℕ
  pub callback_arg : ℕ

-- `utils_memcpy` of `n` bytes to offset `at`.
abbrev pub memcpy_to : (ℕ → ℕ) → ℕ → (ℕ → ℕ) → ℕ → ℕ → ℕ
memcpy_to dest at src n j = if leb at j && ltb j (at + n) then src (j - at) else dest j

-- `utils_memcpy` from offset `at`.
abbrev pub memcpy_from : (ℕ → ℕ) → (ℕ → ℕ) → ℕ → ℕ → ℕ → ℕ
memcpy_from dest src at n = memcpy_to dest 0 (λ j. src (at + j)) n

-- The offset of a slot, as a `size_t`.
abbrev pub offset : Queue → ℕ → ℕ
offset q i = (i * q.item_size) % 2 ^ 32

-- `queue_create`, from the two blocks that the allocator returned, or NULL: the queue, or NULL.
unfoldable pub queue_create : ℕ → ℕ → Option ℕ → Option (ℕ → ℕ) → Option Queue
queue_create item_size capacity block none = none
queue_create item_size capacity block (some buffer) =
    if item_size == 0
    then none
    else if capacity == 0
    then none
    else if is_null block
    then none
    else some (record {
      buffer = buffer;
      item_size = item_size;
      capacity = capacity;
      count = 0;
      head = 0;
      tail = 0;
      rx_wait = no_waiters;
      tx_wait = no_waiters;
      callback = none;
      callback_arg = 0;
    })

-- The item goes to the tail slot.
abbrev pub store_item : Queue → (ℕ → ℕ) → Queue
store_item q item = record q {
  buffer = memcpy_to q.buffer (offset q q.tail) item q.item_size;
  tail = (q.tail + 1) % q.capacity;
  count = q.count + 1;
}

-- The head slot is free again.
abbrev pub drop_item : Queue → Queue
drop_item q = record q { head = (q.head + 1) % q.capacity; count = q.count - 1 }

-- `if (q->callback) q->callback(q->callback_arg);`.
unfoldable pub notify_callback : (ℕ → ℕ → Sched → Sched) → Option ℕ → ℕ → Sched → Sched
notify_callback call none arg s = s
notify_callback call (some callback) arg s = call callback arg s

-- What the pushing functions do when there is space.
unfoldable pub put : (ℕ → ℕ → Sched → Sched) → Queue → Sched → (ℕ → ℕ) → Queue × Sched
unfolding notify_callback
put call q s item =
    let (rx, s') = wake_first q.rx_wait s in
    (record (store_item q item) { rx_wait = rx }, notify_callback call q.callback q.callback_arg s')

-- What the popping functions do when there is data: also the caller's buffer changes.
unfoldable pub get : Queue → Sched → (ℕ → ℕ) → (ℕ → ℕ) × (Queue × Sched)
get q s out =
    let (tx, s') = wake_first q.tx_wait s in
    (
      memcpy_from out q.buffer (offset q q.head) q.item_size,
      (record (drop_item q) { tx_wait = tx }, s'),
    )

-- The current task leaves the list, in case it is still on it, joins it at the end and blocks.
unfoldable pub rejoin : Waiters → Sched → ℕ → Waiters × Sched
rejoin w s current =
    let (nodes, w') = remove_task_from_list s.nodes w current in
    wait_on w' (record s { nodes = nodes }) current

-- A round of the loop of `queue_push`; it runs again when the task has the processor back.
unfoldable pub push_round :
    (ℕ → ℕ → Sched → Sched) → Queue → Sched → (ℕ → ℕ) → ℕ → Call × (Queue × Sched)
push_round call q s item current =
    let (tx, s') = rejoin q.tx_wait s current in
    if ltb q.count q.capacity
    then (Call.returns 0, put call q s item)
    else (Call.yields, (record q { tx_wait = tx }, s'))

-- `queue_push`, with its first round.
unfoldable pub push_from :
    (ℕ → ℕ → Sched → Sched) → Queue → Sched → (ℕ → ℕ) → Option ℕ → Call × (Queue × Sched)
unfolding push_round
push_from call q s item none = (Call.returns err, (q, s))
push_from call q s item (some current) = push_round call q (prepare_node s current) item current

unfoldable pub queue_push :
    (ℕ → ℕ → Sched → Sched) → Queue → Sched → (ℕ → ℕ) → Call × (Queue × Sched)
unfolding push_from
queue_push call q s item = push_from call q s item s.curr

-- A round of the loop of `queue_pop`.
unfoldable pub pop_round : Queue → Sched → (ℕ → ℕ) → ℕ → Call × ((ℕ → ℕ) × (Queue × Sched))
pop_round q s out current =
    let (rx, s') = rejoin q.rx_wait s current in
    if ltb 0 q.count
    then (Call.returns 0, get q s out)
    else (Call.yields, (out, (record q { rx_wait = rx }, s')))

-- `queue_pop`, with its first round.
unfoldable pub pop_from : Queue → Sched → (ℕ → ℕ) → Option ℕ → Call × ((ℕ → ℕ) × (Queue × Sched))
unfolding pop_round
pop_from q s out none = (Call.returns err, (out, (q, s)))
pop_from q s out (some current) = pop_round q (prepare_node s current) out current

unfoldable pub queue_pop : Queue → Sched → (ℕ → ℕ) → Call × ((ℕ → ℕ) × (Queue × Sched))
unfolding pop_from
queue_pop q s out = pop_from q s out s.curr

-- `queue_push_from_isr`: 0, or -1 when the queue is full.
unfoldable pub queue_push_from_isr :
    (ℕ → ℕ → Sched → Sched) → Queue → Sched → (ℕ → ℕ) → ℕ × (Queue × Sched)
queue_push_from_isr call q s item =
    if ltb q.count q.capacity then (0, put call q s item) else (err, (q, s))

-- `queue_pop_from_isr`.
unfoldable pub queue_pop_from_isr : Queue → Sched → (ℕ → ℕ) → ℕ × ((ℕ → ℕ) × (Queue × Sched))
queue_pop_from_isr q s out = if ltb 0 q.count then (0, get q s out) else (err, (out, (q, s)))

-- `queue_peek`.
unfoldable pub queue_peek : Queue → (ℕ → ℕ) → ℕ × (ℕ → ℕ)
queue_peek q out =
    if ltb 0 q.count
    then (0, memcpy_from out q.buffer (offset q q.head) q.item_size)
    else (err, out)

-- The loops that wake waiters: at most `fuel` of them.
unfoldable pub wake_up_to : ℕ → Waiters → Sched → Waiters × Sched
wake_up_to zero w s = (w, s)
wake_up_to (suc fuel) w s =
    let (w', s') = wake_first w s in
    let rest = wake_up_to fuel w' s' in if is_null w.head then (w, s) else rest

-- `queue_reset`; a list holds each task at most once.
unfoldable pub queue_reset : Queue → Sched → Queue × Sched
unfolding wake_up_to
queue_reset q s =
    let (tx, s') = wake_up_to max_tasks q.tx_wait s in
    (record q { head = 0; tail = 0; count = 0; tx_wait = tx }, s')

-- `queue_set_push_callback`; a NULL callback is ignored.
unfoldable pub queue_set_push_callback : Queue → Option ℕ → ℕ → Queue
queue_set_push_callback q none arg = q
queue_set_push_callback q (some callback) arg = record q {
  callback = some callback;
  callback_arg = arg;
}

-- The copy of a chunk in `queue_push_arr`, in one part or, across the end of the ring, in two.
abbrev pub write_chunk : Queue → (ℕ → ℕ) → ℕ → Queue
write_chunk q ptr chunk =
    let first_part = q.capacity - q.tail in
    let one = memcpy_to q.buffer (offset q q.tail) ptr (chunk * q.item_size) in
    let two =
      memcpy_to (memcpy_to q.buffer (offset q q.tail) ptr (first_part * q.item_size)) 0
        (λ j. ptr (first_part * q.item_size + j)) ((chunk - first_part) * q.item_size) in
    if leb chunk first_part
    then record q { buffer = one; tail = (q.tail + chunk) % q.capacity; count = q.count + chunk }
    else record q { buffer = two; tail = chunk - first_part; count = q.count + chunk }

-- The loop of `queue_push_arr`, to its end or to the next `platform_yield`, with what remains to be
-- written then. Each round that does not yield writes at least one item.
unfoldable pub push_arr_loop :
    (ℕ → ℕ → Sched → Sched) → ℕ → Queue → Sched → (ℕ → ℕ) → ℕ → ℕ → Call × (ℕ × (Queue × Sched))
unfolding notify_callback wake_up_to
push_arr_loop call zero q s ptr remaining current = (Call.returns 0, (remaining, (q, s)))
push_arr_loop call (suc fuel) q s ptr remaining current =
    let (tx, s') = rejoin q.tx_wait s current in
    let space = q.capacity - q.count in
    let chunk = if ltb remaining space then remaining else space in
    let (rx, s″) = wake_up_to chunk q.rx_wait s in
    let rest =
      push_arr_loop call fuel (record (write_chunk q ptr chunk) { rx_wait = rx })
        (notify_callback call q.callback q.callback_arg s″) (λ j. ptr (chunk * q.item_size + j))
        (remaining - chunk) current in
    if remaining == 0
    then (Call.returns 0, (0, (q, s)))
    else if q.count == q.capacity
    then (Call.yields, (remaining, (record q { tx_wait = tx }, s')))
    else rest

-- `queue_push_arr`, with its first rounds.
unfoldable pub push_arr_from :
    (ℕ → ℕ → Sched → Sched) → Queue → Sched → (ℕ → ℕ) → ℕ → Option ℕ → Call × (ℕ × (Queue × Sched))
unfolding push_arr_loop
push_arr_from call q s items count none = (Call.returns err, (count, (q, s)))
push_arr_from call q s items count (some current) =
    push_arr_loop call (suc count) q (prepare_node s current) items count current

unfoldable pub queue_push_arr :
    (ℕ → ℕ → Sched → Sched) → Queue → Sched → (ℕ → ℕ) → ℕ → Call × (ℕ × (Queue × Sched))
unfolding push_arr_from
queue_push_arr call q s items count = push_arr_from call q s items count s.curr
