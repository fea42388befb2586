-- ===== src/Queue/Fifo.antt =====
-- kernel/src/queue.c: pushing and popping, with the ring buffer, the waiters and the scheduler.
use so_rtos.Base.{
  ◌⊎◌, Option, some, none, [], ℕ, ◌≡◌, ◌≢◌, ◌<◌, refl, arith, true, false, List, ◌∷◌, ◌++◌,
  Bool-cases, inl, inr, ap, ◌∙◌, ltb, if◌then◌else◌, if_true,
}
use so_rtos.Chain.{length, contains, erase, contains-erase}
use so_rtos.Task.{WaitNode, max_tasks, is_blocked}
use so_rtos.Sched.{Sched}
use so_rtos.Sched.Wait.{Call, err}
use so_rtos.Sched.Invariant.{IsValid, state_of, is_live}
use so_rtos.WaitList.{
  Waiters, wake_first, prepare_node, find_waiter, unlink_waiter, remove_task_from_list,
}
use so_rtos.WaitList.Order.{IsWaitList}
use so_rtos.WaitList.Remove.{remove_task_from_list-IsWaitList}
use so_rtos.WaitList.Wake.{
  IsWakeable, Waiting, Woke, Joined, wake_first-Woke, wait_on-Joined, prepare_node-Waiting,
  nodes-IsValid,
}
use so_rtos.Queue.{
  queue_peek, Queue, notify_callback, put, get, rejoin, push_round, push_from, queue_push,
  pop_round, pop_from, queue_pop, queue_push_from_isr,
}
use so_rtos.Queue.Ring.{
  items_from, bytes, contents, IsRing, store_item-contents, drop_item-contents,
}

removed_task :
    (nodes : ℕ → WaitNode) (w : Waiters) (t k : ℕ)
    → ((remove_task_from_list nodes w t).0 k).task ≡ (nodes k).task
unfolding remove_task_from_list
removed_task nodes w t k = by_found (find_waiter max_tasks nodes t none w.head)
  where
    by_found : (r : Option (Option ℕ × ℕ)) → ((unlink_waiter nodes w r).0 k).task ≡ (nodes k).task
    by_found none = refl
    by_found (some (none, c)) = refl
    by_found (some (some p, c)) = ground arith

-- A task that is to wait on a queue joins the end of the list of waiters and blocks, whether it is
-- still on that list or not; the others keep their order and wait, no other task's state changes,
-- and the scheduler's invariant stands. The task is live and not idle, its node names it, the list
-- is well formed with room, and the tasks of the others on it are blocked.
pub rejoin-Joined :
    (base : ℕ) (s : Sched) (ys : List ℕ) (w : Waiters) (xs : List ℕ) (c : ℕ)
    → IsValid base s ys
    → IsWaitList s.nodes w xs
    → ((t : ℕ) → t ≢ c → contains xs t ≡ true → (is_blocked (state_of s t) ≡ true) × IsWakeable s t)
    → length (erase c xs) < max_tasks
    → (s.nodes c).task ≡ c
    → is_live (state_of s c) ≡ true
    → IsWakeable s c
    → let (w', s') = rejoin w s c in Joined base c s s' ys w' (erase c xs)
unfolding rejoin
rejoin-Joined base s ys w xs c valid list others room own live wakeable =
    let removed = remove_task_from_list-IsWaitList s.nodes w xs c list in
    let n = (remove_task_from_list s.nodes w c).0 in
    let w₁ = (remove_task_from_list s.nodes w c).1 in
    let s₁ = record s { nodes = n } in
    let inside : (t : ℕ) → contains (erase c xs) t ≡ true → (t ≢ c) × (contains xs t ≡ true) =
      λ t m. (
        λ q. ground (arith, contains-erase c t xs list.distinct),
        ground (arith, contains-erase c t xs list.distinct),
      ) in
    let v : Waiting base s₁ ys w₁ (erase c xs) = record {
      valid = nodes-IsValid base s ys n valid;
      list = removed;
      blocked = λ t m. (others t (inside t m).0 (inside t m).1).0;
      wakeable = λ t m. (others t (inside t m).0 (inside t m).1).1;
    } in
    let j =
      wait_on-Joined base s₁ ys w₁ (erase c xs) c v
        (ground (arith, contains-erase c c xs list.distinct)) room
        (removed_task s.nodes w c c ∙ own) live wakeable in
    record { still = j.still; others = j.others; weights = j.weights }

module _ (base c : ℕ) (q : Queue) (s : Sched) (ys xs : List ℕ) (ring : IsRing q)
    (current : s.curr ≡ some c) (out : contains xs c ≡ false) where
  -- `queue_push` on a well formed queue with space returns 0 with the item behind all others, and
  -- wakes the longest waiting receiver, if one waits, before it calls the callback, if one is set.
  -- The list of receivers is well formed and the current task is not on it.
  pub queue_push-contents :
      (call : ℕ → ℕ → Sched → Sched) (item : ℕ → ℕ)
      → Waiting base s ys q.rx_wait xs
      → q.count < q.capacity
      → let (result, (q', s')) = queue_push call q s item in
        let s₁ = prepare_node s c in
        let u = (wake_first q.rx_wait s₁).1 in
        (result ≡ Call.returns 0)
        × (contents q' ≡ contents q ++ bytes item 0 q.item_size ∷ [])
        × IsRing q'
        × Woke base s₁ u ys q'.rx_wait xs
        × (s' ≡ notify_callback call q.callback q.callback_arg u)
  unfolding queue_push push_from push_round put
  queue_push-contents call item v space =
      let s₁ = prepare_node s c in
      let (stored, ring') = store_item-contents q item ring space in
      rw
        (ap (push_from call q s item) current
          ∙ if_true _ _ {b = ltb q.count q.capacity} (ground arith))
        (
          refl,
          stored,
          record { head = ring'.head; tail = ring'.tail; count = ring'.count; size = ring'.size },
          wake_first-Woke base s₁ ys q.rx_wait xs
              (prepare_node-Waiting base s ys q.rx_wait xs c v out),
          refl,
        )

  -- `queue_pop` on a well formed queue with an item returns 0, copies the oldest item out, leaves
  -- the others in their order, and wakes the longest waiting sender, if one waits. The list of
  -- senders is well formed and the current task is not on it.
  pub queue_pop-contents :
      (buffer : ℕ → ℕ)
      → Waiting base s ys q.tx_wait xs
      → 0 < q.count
      → let (result, (buffer', (q', s'))) = queue_pop q s buffer in
        (result ≡ Call.returns 0)
        × (contents q ≡ bytes buffer' 0 q.item_size ∷ contents q')
        × IsRing q'
        × Woke base (prepare_node s c) s' ys q'.tx_wait xs
  unfolding queue_pop pop_from pop_round get
  queue_pop-contents buffer v some_item =
      let s₁ = prepare_node s c in
      let (taken, ring') = drop_item-contents q buffer ring some_item in
      rw (ap (pop_from q s buffer) current ∙ if_true _ _ {b = ltb 0 q.count} (ground arith)) (
        refl,
        taken,
        record { head = ring'.head; tail = ring'.tail; count = ring'.count; size = ring'.size },
        wake_first-Woke base s₁ ys q.tx_wait xs
            (prepare_node-Waiting base s ys q.tx_wait xs c v out),
      )

-- On a well formed ring, `queue_push_from_isr` puts the item behind all others and returns 0 when
-- there is space, and otherwise changes nothing and returns -1.
pub queue_push_from_isr-contents :
    (call : ℕ → ℕ → Sched → Sched) (q : Queue) (s : Sched) (item : ℕ → ℕ)
    → IsRing q
    → let (result, (q', s')) = queue_push_from_isr call q s item in
      IsRing q'
      × (if ltb q.count q.capacity
          then (result ≡ 0) × (contents q' ≡ contents q ++ bytes item 0 q.item_size ∷ [])
          else (result ≡ err) × (q' ≡ q) × (s' ≡ s))
unfolding queue_push_from_isr put
queue_push_from_isr-contents call q s item ring = elim (Bool-cases (ltb q.count q.capacity)) [
  | inl e ↦
      let (stored, ring') = store_item-contents q item ring (ground arith) in
      rw e (
        record { head = ring'.head; tail = ring'.tail; count = ring'.count; size = ring'.size },
        (refl, stored),
      )
  | inr e ↦ rw e (ring, (refl, refl, refl))
]

abbrev pub head_item : List (List ℕ) → Option (List ℕ)
head_item [] = none
head_item (x ∷ xs) = some x

-- `queue_peek` on a well formed queue copies the oldest item out and returns 0 when there is one,
-- and otherwise copies nothing and returns -1.
pub queue_peek-contents :
    (q : Queue) (buffer : ℕ → ℕ)
    → IsRing q
    → let (result, buffer') = queue_peek q buffer in
      (result ≡ 0) × (head_item (contents q) ≡ some (bytes buffer' 0 q.item_size))
      ⊎ (result ≡ err) × (contents q ≡ []) × (buffer' ≡ buffer)
unfolding queue_peek
queue_peek-contents q buffer ring = elim (Bool-cases (ltb 0 q.count)) [
  | inl e ↦
      let (oldest, _) = drop_item-contents q buffer ring (ground arith) in
      rw e (inl (refl, ap head_item oldest))
  | inr e ↦
      let empty : q.count ≡ 0 = ground arith in
      rw e (inr (refl, ap (λ n. items_from q.buffer q.item_size q.capacity n q.head) empty, refl))
]
