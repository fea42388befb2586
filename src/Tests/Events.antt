-- ===== src/Tests/Events.antt =====
-- Event groups on a concrete state.
use so_rtos.Base.{◌≡◌, refl, arith, [], ◌∷◌, update}
use so_rtos.Task.{Task, TaskState}
use so_rtos.Sched.{Sched}
use so_rtos.Sched.Tests.{blank, sample}
use so_rtos.Sched.Heap.Swap.{rank}
use so_rtos.Sched.Wait.{Call}
use so_rtos.Sched.Invariant.{state_of}
use so_rtos.WaitList.Order.{IsWaitList}
use so_rtos.EventGroup.{
  EventGroup, event_group_set_bits, event_group_wait_bits, wait_bits_end, event_group_delete,
  is_satisfied, take_bits,
}
use so_rtos.EventGroup.Pending.{Pending, Served, wish_of}
use so_rtos.EventGroup.Join.{Queued}
use so_rtos.EventGroup.Serve.{event_group_set_bits-Served}
use so_rtos.EventGroup.Wait.{event_group_wait_bits-Queued, event_group_wait_bits-abandons}
use so_rtos.EventGroup.Wake.{Released, wait_bits_end-granted, event_group_delete-Released}
use so_rtos.Tests.{one_waiter}

-- Task 4 waits for the bits 1 and 2, both of them, and takes them.
abbrev waiter : Task
waiter = record blank {
  task_id = 5;
  state = TaskState.blocked;
  vruntime = 4;
  weight = 30;
  base_weight = 30;
  time_slice = 60;
  event_mask = 3;
  event_flags = 3;
}

abbrev hall : Sched
hall = record sample { task_of = update sample.task_of 4 waiter }

abbrev group : EventGroup
group = record { waiters = one_waiter; bits = 1 }

hall-Pending : Pending 0 hall (3 ∷ []) one_waiter (4 ∷ [])
unfolding rank
hall-Pending = record {
  valid = record {
    heap = record {
      bounded = omega arith;
      indexed = record { slots = λ i p. ground arith; tasks = λ t i e. ground arith };
      windowed = λ i p. omega arith;
      ordered = λ c p q. absurd (omega arith);
    };
    sleep = record { chain = (refl, refl); distinct = (refl, tt); short = omega arith };
    pool = λ t h. ground arith;
    fits = λ t h. ground arith;
    floor = omega arith;
    queued = λ t. ground arith;
    sleeping = λ t. ground arith;
  };
  list = record {
    chain = (refl, refl);
    tail = refl;
    distinct = (refl, tt);
    short = omega arith;
    owned = λ t h. ground arith;
  };
  waits = λ t h. ground arith;
  wakeable = λ t h. ground arith;
}

event_group_set_bits-Served_example :
    let (result, (eg, s)) = event_group_set_bits group hall 6 in
    (result ≡ 7) × Served 0 (wish_of hall) result hall [] (4 ∷ []) eg s
event_group_set_bits-Served_example =
    event_group_set_bits-Served 0 group hall (3 ∷ []) (4 ∷ []) 6 hall-Pending

event_group_wait_bits-Queued_example :
    let (call, (eg, s)) = event_group_wait_bits group hall 8 0 50 1000 in
    (call ≡ Call.yields)
    × (eg.bits ≡ 1)
    × Queued 0 1 TaskState.sleeping (record { mask = 8; flags = 0 }) hall s eg (4 ∷ [])
unfolding is_satisfied
event_group_wait_bits-Queued_example =
    event_group_wait_bits-Queued 0 1 group hall (3 ∷ []) (4 ∷ []) hall-Pending refl 8 0 50 1000 refl
      refl refl (omega arith) refl (refl, refl)

event_group_wait_bits-abandons_example :
    let (call, (eg, s)) = event_group_wait_bits group hall 8 0 0 1000 in
    (call ≡ Call.returns 1)
    × IsWaitList s.nodes eg.waiters (4 ∷ 1 ∷ [])
    × (state_of s 1 ≡ TaskState.running)
unfolding is_satisfied
event_group_wait_bits-abandons_example =
    event_group_wait_bits-abandons 0 1 group hall (3 ∷ []) (4 ∷ []) hall-Pending refl 8 0 0 1000
      refl refl refl (omega arith)

wait_bits_end-granted_example :
    let (_, (eg, s)) = event_group_set_bits group hall 6 in
    wait_bits_end eg s 4 ≡ (Call.returns 4, (eg, s))
unfolding is_satisfied take_bits
wait_bits_end-granted_example =
    wait_bits_end-granted 0 group hall (3 ∷ []) (4 ∷ []) 6 4 hall-Pending refl (omega arith)

event_group_delete-Released_example : Released 0 hall (event_group_delete group hall) (4 ∷ [])
event_group_delete-Released_example =
    event_group_delete-Released 0 group hall (3 ∷ []) (4 ∷ []) hall-Pending
