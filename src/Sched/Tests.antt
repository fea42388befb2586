-- ===== src/Sched/Tests.antt =====
-- Concrete states of the scheduler, and its theorems at them.
use so_rtos.Base.{
  ℕ, ◌≡◌, refl, true, false, List, [], ◌∷◌, none, some, is_null, arith, ltb, ◌||◌, ◌-◌,
  if◌then◌else◌, ◌==◌, ◌%◌, ◌^◌, add32,
}
use so_rtos.Chain.{contains}
use so_rtos.Task.{Task, TaskState}
use so_rtos.Sched.{Sched}
use so_rtos.Sched.Vruntime.{vruntime_lt, lead, vruntime_lt-lead}
use so_rtos.Sched.Heap.{heap_pop_min, heap_insert, heap_remove}
use so_rtos.Sched.Heap.Swap.{rank}
use so_rtos.Sched.Heap.Index.{heap_index}
use so_rtos.Sched.Heap.Valid.{IsHeap, Inserts, Removes}
use so_rtos.Sched.Heap.Insert.{heap_insert-IsHeap}
use so_rtos.Sched.Heap.Remove.{heap_pop_min-IsHeap, heap_remove-IsHeap}
use so_rtos.Sched.Sleep.{wake_tick, insert_into_sleep_list, unblock_task_locked}
use so_rtos.Sched.Sleep.Remove.{IsSleepList}
use so_rtos.Sched.Sleep.Insert.{IsSorted, place, insert_into_sleep_list-IsSorted}
use so_rtos.Sched.Block.{task_set_state}
use so_rtos.Sched.Switch.{Ends, charge, schedule_next_task, scheduler_tick}
use so_rtos.Sched.Wait.{Call, task_sleep_ticks, notify_found}
use so_rtos.Sched.Invariant.Unblock.{Readied, unblock_task_locked-Readied}
use so_rtos.Sched.Invariant.Tick.{Ticked, drop_due, scheduler_tick-Ticked}
use so_rtos.Sched.Invariant.State.{Restated, task_set_state-Restated}
use so_rtos.Sched.Invariant.Sleeping.{dozing, task_sleep_ticks-IsValid, notify_found-IsValid}
use so_rtos.Sched.Invariant.Dispatch.{schedule_next_task-first, schedule_next_task-IsValid}
use so_rtos.Sched.Invariant.{IsValid, state_of}

abbrev pub blank : Task
blank = record {
  psp = 0;
  stack_ptr = none;
  next = none;
  stack_size = 0;
  vruntime = 0;
  total_cpu_ticks = 0;
  last_switch_tick = 0;
  sleep_until_tick = 0;
  time_slice = 0;
  notify_val = 0;
  event_mask = 0;
  heap_index = none;
  task_id = 0;
  state = TaskState.unused;
  is_idle = false;
  weight = 0;
  base_weight = 0;
  notify_state = 0;
  event_flags = 0;
  cpu_id = 0;
}

abbrev idler : Task
idler = record blank { task_id = 1; state = TaskState.ready; is_idle = true; weight = 1 }

abbrev runner : Task
runner = record blank {
  task_id = 2;
  state = TaskState.running;
  vruntime = 5;
  weight = 10;
  time_slice = 7;
}

abbrev waiting : Task
waiting = record blank {
  task_id = 3;
  state = TaskState.ready;
  vruntime = 9;
  weight = 20;
  time_slice = 40;
  heap_index = some 0;
}

abbrev sleeper : Task
sleeper = record blank {
  task_id = 4;
  state = TaskState.sleeping;
  vruntime = 3;
  weight = 20;
  time_slice = 40;
  sleep_until_tick = 100;
}

-- The idle task, a running, a ready and a sleeping one.
abbrev pub sample : Sched
sample = record {
  task_of = λ t.
      if t == 0
      then idler
      else if t == 1
      then runner
      else if t == 2
      then waiting
      else if t == 3
      then sleeper
      else blank;
  nodes = λ t. record { task = t; next = none };
  free_list = some 4;
  zombie_list = none;
  id_bitmap = λ word bit. false;
  count = 4;
  next_cpu = 0;
  ready_heap = λ i. 2;
  heap_size = 1;
  sleep_list = some 3;
  idle_task = some 0;
  curr = some 1;
}

pub sample-IsValid : IsValid 0 sample (3 ∷ [])
unfolding rank
sample-IsValid = record {
  heap = record {
    bounded = omega arith;
    indexed = record { slots = λ i p. ground arith; tasks = λ t i e. ground arith };
    windowed = λ i p. omega arith;
    ordered = λ c p q. absurd (omega arith);
  };
  sleep = record { chain = (refl, refl); distinct = (refl, tt); short = omega arith };
  pool = λ t h. ground arith;
  fits = λ t h. ground arith;
  floor = omega arith;
  queued = λ t. ground arith;
  sleeping = λ t. ground arith;
}

sample-waiting : heap_index sample 2 ≡ some 0
sample-waiting = refl

schedule_next_task-first_example :
    let (ends, s') = schedule_next_task sample 10 in
    (c : ℕ) × (ends ≡ Ends.settles)
    × (s'.curr ≡ some c)
    × (state_of s' c ≡ TaskState.running)
    × ((k : ℕ)
        → is_null (heap_index s' k) ≡ false
        → vruntime_lt (s'.task_of k).vruntime (s'.task_of c).vruntime ≡ false)
unfolding charge
schedule_next_task-first_example =
    schedule_next_task-first 0 sample (3 ∷ []) 10 sample-IsValid (omega arith) 2 refl refl refl

schedule_next_task-IsValid_example : IsValid 0 (schedule_next_task sample 10).1 (3 ∷ [])
unfolding charge
schedule_next_task-IsValid_example =
    schedule_next_task-IsValid 0 sample (3 ∷ []) 10 sample-IsValid (omega arith)
      (λ i e. ground arith)

scheduler_tick-Ticked_example :
    Ticked 0 sample
      (scheduler_tick sample 120).1
      (3 ∷ [])
      (drop_due (wake_tick sample) (120 % 2 ^ 32) (3 ∷ []))
scheduler_tick-Ticked_example =
    scheduler_tick-Ticked 0 sample (3 ∷ []) 120 sample-IsValid (λ k m. ground arith)

heap_pop_min-IsHeap_example :
    ((heap_pop_min sample).0 ≡ some 2)
    × IsHeap 0 (heap_pop_min sample).1
    × Removes 2 sample (heap_pop_min sample).1
heap_pop_min-IsHeap_example = heap_pop_min-IsHeap 0 sample sample-IsValid.heap (omega arith)

heap_remove-IsHeap_example :
    IsHeap 0 (heap_remove sample 2) × Removes 2 sample (heap_remove sample 2)
heap_remove-IsHeap_example = heap_remove-IsHeap 0 sample sample-IsValid.heap 2 0 refl

heap_insert-IsHeap_example :
    IsHeap 0 (heap_insert sample 3) × Inserts 3 sample (heap_insert sample 3)
heap_insert-IsHeap_example =
    heap_insert-IsHeap 0 sample 3 sample-IsValid.heap (omega arith) refl (omega arith)

insert_into_sleep_list-IsSorted_example :
    let s' = insert_into_sleep_list sample 1 in
    (ys : List ℕ) × IsSleepList s' ys
    × IsSorted (wake_tick s') ys
    × ((k : ℕ) → contains ys k ≡ (1 == k || contains (3 ∷ []) k))
insert_into_sleep_list-IsSorted_example =
    insert_into_sleep_list-IsSorted sample (3 ∷ []) 1 sample-IsValid.sleep (omega arith) refl tt

unblock_task_locked-Readied_example : Readied 3 0 sample (unblock_task_locked sample 3) (3 ∷ [])
unblock_task_locked-Readied_example =
    unblock_task_locked-Readied 0 sample (3 ∷ []) 3 sample-IsValid refl refl

task_set_state-Restated_example :
    Restated 2 TaskState.blocked 0 sample (task_set_state sample 2 TaskState.blocked) (3 ∷ [])
task_set_state-Restated_example =
    task_set_state-Restated 0 sample (3 ∷ []) 2 sample-IsValid refl refl refl TaskState.blocked refl
      refl refl

task_sleep_ticks-IsValid_example :
    let (call, s') = task_sleep_ticks sample 25 10 in
    (call ≡ Call.yields)
    × IsValid 0 s' (place (wake_tick (dozing sample 1 (add32 (10 % 2 ^ 32) 25))) 1 (3 ∷ []))
    × (state_of s' 1 ≡ TaskState.sleeping)
    × (wake_tick s' 1 ≡ add32 (10 % 2 ^ 32) 25)
task_sleep_ticks-IsValid_example =
    task_sleep_ticks-IsValid 0 sample (3 ∷ []) 1 25 10 sample-IsValid refl refl refl refl

notify_found-IsValid_example : IsValid 0 (notify_found sample 3 1) []
notify_found-IsValid_example = notify_found-IsValid 0 sample (3 ∷ []) 3 1 sample-IsValid refl refl

vruntime_lt-lead_example :
    vruntime_lt (2 ^ 64 - 2) 3 ≡ ltb (lead (2 ^ 64 - 5) (2 ^ 64 - 2)) (lead (2 ^ 64 - 5) 3)
vruntime_lt-lead_example =
    vruntime_lt-lead (2 ^ 64 - 5) (2 ^ 64 - 2) 3 (omega arith) (omega arith) (omega arith)
      (omega arith) (omega arith)

-- A task that got a slice at a boosted weight and then lost the boost: the ticks that it ran come
-- out negative, and the charge wraps.
charge_after_boost : charge (record blank { weight = 10; time_slice = 200 }) ≡ 429478729
unfolding charge
charge_after_boost = refl
