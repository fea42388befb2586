-- ===== src/Tests/Creation.antt =====
-- The creation and the collection of tasks on a concrete state and with a small allocator.
use so_rtos.Base.{
  ℕ, ◌≡◌, refl, arith, true, [], ◌∷◌, ◌==◌, none, some, update, ◌+◌, ◌-◌, ◌&&◌, ltb, leb,
}
use so_rtos.Task.{Task, TaskState}
use so_rtos.Sched.{Sched}
use so_rtos.Sched.Tests.{blank, sample}
use so_rtos.Sched.Block.{is_id_used}
use so_rtos.Sched.Heap.Swap.{rank}
use so_rtos.Sched.Invariant.{IsValid, is_live, state_of}
use so_rtos.Sched.Collect.{collect, Allocator, Kernel, task_garbage_collection}
use so_rtos.Sched.Collect.Pool.{IsPool, IsNamed, Pooled}
use so_rtos.Sched.Collect.Reclaim.{Collected, task_garbage_collection-Collected}
use so_rtos.Sched.Create.{InitStack, Request, task_create}
use so_rtos.Sched.Create.Result.{Succeeds, task_create-Succeeds, task_create-refused}

-- A stack of task 4, which was deleted, waits for its collection.
abbrev deleted : Task
deleted = record blank { state = TaskState.zombie; stack_ptr = some 0x3000 }

abbrev stocked : Sched
stocked = record sample {
  task_of = update sample.task_of 4 deleted;
  free_list = some 5;
  zombie_list = some 4;
  id_bitmap = λ word bit. word == 0 && ltb bit 4;
}

-- Stacks one behind the other, and none.
abbrev bump : Allocator ℕ
bump = record {
  malloc = λ h size. (some h, h + size);
  free = λ h p. h;
  is_heap_pointer = λ h p. leb 0x2000 p;
}

abbrev empty : Allocator ℕ
empty = record {
  malloc = λ h size. (none, h);
  free = λ h p. h;
  is_heap_pointer = λ h p. leb 0x2000 p;
}

abbrev init_stack : InitStack
init_stack top func arg words = (top - 64, words)

abbrev kernel : Kernel ℕ
kernel = record { sched = stocked; heap = 0x4000; words = λ a. 0 }

abbrev request : Request
request = record { func = some 77; arg = 0; size = 512; weight = 10 }

stocked-IsValid : IsValid 0 stocked (3 ∷ [])
unfolding rank
stocked-IsValid = record {
  heap = record {
    bounded = omega arith;
    indexed = record { slots = λ i p. ground arith; tasks = λ t i e. ground arith };
    windowed = λ i p. omega arith;
    ordered = λ c p q. absurd (omega arith);
  };
  sleep = record { chain = (refl, refl); distinct = (refl, tt); short = omega arith };
  pool = λ t h. ground arith;
  fits = λ t h. ground arith;
  floor = omega arith;
  queued = λ t. ground arith;
  sleeping = λ t. ground arith;
}

stocked-IsPool : IsPool stocked (4 ∷ []) (5 ∷ [])
stocked-IsPool = record {
  zombies = (refl, refl);
  free = (refl, refl);
  zombies_distinct = (refl, tt);
  free_distinct = (refl, tt);
  buried = λ t m. ground arith;
  unused = λ t m. ground arith;
  inside = λ t m. ground arith;
  slots = λ t m. ground arith;
}

-- The live tasks are the first four, and a task's ID is one more than its index.
live_name :
    (t : ℕ)
    → is_live (state_of stocked t) ≡ true
    → (ltb t 4 ≡ true) × ((stocked.task_of t).task_id ≡ t + 1)
live_name t live = (ground arith, ground arith)

named_live :
    (t : ℕ)
    → ltb t 4 ≡ true
    → (is_live (state_of stocked t) ≡ true) × ((stocked.task_of t).task_id ≡ t + 1)
named_live t small = (ground arith, ground arith)

stocked-IsNamed : IsNamed stocked
unfolding is_id_used
stocked-IsNamed = record {
  ranged = λ t live. let (small, is) = live_name t live in ground (arith, small, is);
  used = λ t live. let (small, is) = live_name t live in ground (arith, small, is);
  owner = λ id range h.
      let (live, is) = named_live (id - 1) (ground (arith, range, h)) in
      (id - 1, live, ground (arith, is, range));
  unique = λ t u live live' e.
      let (_, is) = live_name t live in
      let (_, is') = live_name u live' in omega (arith, is, is', e);
}

stocked-Pooled : Pooled 0 stocked (3 ∷ []) (4 ∷ []) (5 ∷ [])
stocked-Pooled = record { valid = stocked-IsValid; pool = stocked-IsPool; named = stocked-IsNamed }

task_garbage_collection-Collected_example :
    Collected bump 0 kernel (task_garbage_collection bump kernel) (3 ∷ []) (4 ∷ []) (5 ∷ [])
task_garbage_collection-Collected_example =
    task_garbage_collection-Collected bump 0 kernel (3 ∷ []) (4 ∷ []) (5 ∷ []) stocked-Pooled

task_create-Succeeds_example :
    let (result, k) = task_create bump init_stack kernel request in
    Succeeds 0 5 10 0x4000 stocked (3 ∷ []) (4 ∷ []) [] 0x4200 result k
task_create-Succeeds_example =
    task_create-Succeeds bump init_stack kernel request 77 refl refl 0 (3 ∷ []) (4 ∷ []) [] 5 0x4000
      0x4200 stocked-Pooled refl

task_create-refused_example :
    let (result, k) = task_create empty init_stack kernel request in
    (result ≡ none) × Pooled 0 k.sched (3 ∷ []) [] (4 ∷ 5 ∷ [])
unfolding task_garbage_collection collect
task_create-refused_example =
    task_create-refused empty init_stack kernel request 77 refl refl 0 (3 ∷ []) (4 ∷ []) [] 5 0x4000
      0x4000 stocked-Pooled refl refl
