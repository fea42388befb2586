-- ===== src/Sched/Collect/Pool.antt =====
-- kernel/src/scheduler.c: the free list and the zombie list of the pool, and the task IDs.
use so_rtos.Base.{
  ℕ, ◌≡◌, ◌≢◌, ◌<◌, ◌≤◌, arith, true, false, List, ap, sym, ◌∙◌, Bool-cases, inl, inr, ◌==◌,
}
use so_rtos.Chain.{contains, IsDistinct, IsChain}
use so_rtos.Task.{max_tasks, is_zombie, is_unused}
use so_rtos.Sched.{Sched}
use so_rtos.Sched.Heap.Index.{heap_index}
use so_rtos.Sched.Sleep.{next_of}
use so_rtos.Sched.Block.{is_id_used}
use so_rtos.Sched.Invariant.{IsValid, is_live, state_of}
use so_rtos.Sched.Invariant.Off.{IsHeap-agree, IsSleepList-agree, floor-agree}

-- The zombie list holds the tasks `zs` and the free list the slots `fs`, both through `next`.
pub record IsPool (s : Sched) (zs fs : List ℕ) : Type 0 where
  pub zombies : IsChain (next_of s) s.zombie_list zs
  pub free : IsChain (next_of s) s.free_list fs
  pub zombies_distinct : IsDistinct zs
  pub free_distinct : IsDistinct fs
  pub buried : (t : ℕ) → contains zs t ≡ true → is_zombie (state_of s t) ≡ true
  pub unused : (t : ℕ) → contains fs t ≡ true → is_unused (state_of s t) ≡ true
  pub inside : (t : ℕ) → is_zombie (state_of s t) ≡ true → t < max_tasks
  pub slots : (t : ℕ) → contains fs t ≡ true → t < max_tasks

-- A number that names a task.
abbrev pub IsId : ℕ → Type 0
IsId id = (0 < id) × (id ≤ max_tasks)

-- Each live task has its own ID, and an ID is marked as used exactly if a live task has it.
pub record IsNamed (s : Sched) : Type 0 where
  pub ranged : (t : ℕ) → is_live (state_of s t) ≡ true → IsId (s.task_of t).task_id
  pub used : (t : ℕ) → is_live (state_of s t) ≡ true → is_id_used s (s.task_of t).task_id ≡ true
  pub owner :
      (id : ℕ)
      → IsId id
      → is_id_used s id ≡ true
      → (t : ℕ) × (is_live (state_of s t) ≡ true) × ((s.task_of t).task_id ≡ id)
  pub unique :
      (t u : ℕ)
      → is_live (state_of s t) ≡ true
      → is_live (state_of s u) ≡ true
      → (s.task_of t).task_id ≡ (s.task_of u).task_id
      → t ≡ u

-- Scheduler, pool and IDs agree.
pub record Pooled (base : ℕ) (s : Sched) (ys zs fs : List ℕ) : Type 0 where
  pub valid : IsValid base s ys
  pub pool : IsPool s zs fs
  pub named : IsNamed s

-- `s'` is `s` but for what is written to the slot `t`, which is not live, and for the lists of
-- slots and the count.
pub record Slots (t : ℕ) (s s' : Sched) : Type 0 where
  pub frame : s' ≡ record s {
    task_of = s'.task_of;
    zombie_list = s'.zombie_list;
    free_list = s'.free_list;
    count = s'.count;
  }
  pub others : (k : ℕ) → k ≢ t → s'.task_of k ≡ s.task_of k
  pub index : heap_index s' t ≡ heap_index s t
  pub run : (s'.task_of t).vruntime ≡ (s.task_of t).vruntime
  pub idle : (s'.task_of t).is_idle ≡ (s.task_of t).is_idle
  pub dead : is_live (state_of s t) ≡ false
  pub still : is_live (state_of s' t) ≡ false

module _ (base t : ℕ) (s s' : Sched) (r : Slots t s s') where
  apart : (k : ℕ) → is_live (state_of s' k) ≡ true → k ≢ t
  apart k live q = ground (arith, r.still, ap (λ j. is_live (state_of s' j)) q)

  run_kept : (k : ℕ) → (s'.task_of k).vruntime ≡ (s.task_of k).vruntime
  run_kept k = elim (Bool-cases (k == t)) [
    | inl e ↦ let at : k ≡ t = ground arith in rw at r.run
    | inr e ↦ ap (λ u. u.vruntime) (r.others k (λ q. ground arith))
  ]

  index_kept : (k : ℕ) → heap_index s' k ≡ heap_index s k
  index_kept k = elim (Bool-cases (k == t)) [
    | inl e ↦ let at : k ≡ t = ground arith in rw at r.index
    | inr e ↦ ap (λ u. u.heap_index) (r.others k (λ q. ground arith))
  ]

  -- A write to a slot that is not live keeps the scheduler's invariant.
  pub Slots-IsValid : (ys : List ℕ) → IsValid base s ys → IsValid base s' ys
  Slots-IsValid ys v = record {
    heap =
        IsHeap-agree base s s' (ap (λ x. x.heap_size) r.frame)
          (λ i. ap (λ x. x.ready_heap i) r.frame) index_kept (λ k q. run_kept k) v.heap;
    sleep =
        IsSleepList-agree s s' ys (ap (λ x. x.sleep_list) r.frame)
          (λ k m.
            ap (λ u. u.next)
              (r.others k (λ q. ground (arith, v.sleeping t, r.dead, m, ap (contains ys) q))))
          v.sleep;
    pool = λ k live. v.pool k (ap (λ u. is_live u.state) (sym (r.others k (apart k live))) ∙ live);
    fits = λ k live. ground (arith, r.others k (apart k live), v.fits k);
    floor = floor-agree base s s' (ap (λ x. x.curr) r.frame) run_kept v.floor;
    queued = λ k. elim (Bool-cases (k == t)) [
      | inl e ↦
          let at : k ≡ t = ground arith in
          rw at (ground (arith, r.index, v.queued t, r.dead, r.still))
      | inr e ↦ ground (arith, r.others k (λ q. ground arith), v.queued k)
    ];
    sleeping = λ k. elim (Bool-cases (k == t)) [
      | inl e ↦
          let at : k ≡ t = ground arith in rw at (ground (arith, v.sleeping t, r.dead, r.still))
      | inr e ↦ ground (arith, r.others k (λ q. ground arith), v.sleeping k)
    ];
  }

  id_used_kept : (id : ℕ) → is_id_used s' id ≡ is_id_used s id
  unfolding is_id_used
  id_used_kept id = ap (λ x. is_id_used x id) r.frame

  -- And it keeps the names.
  pub Slots-IsNamed : IsNamed s → IsNamed s'
  Slots-IsNamed v = record {
    ranged = λ k live. ground (arith, r.others k (apart k live), v.ranged k);
    used = λ k live. id_used_kept _ ∙ ground (arith, r.others k (apart k live), v.used k);
    owner = λ id range h.
        let (k, live, is) = v.owner id range (sym (id_used_kept id) ∙ h) in
        let ne : k ≢ t = λ q. ground (arith, r.dead, ap (λ j. is_live (state_of s j)) q) in
        (k, ground (arith, r.others k ne), ground (arith, r.others k ne));
    unique = λ k u live live' e.
        v.unique k u (ground (arith, r.others k (apart k live)))
          (ground (arith, r.others u (apart u live')))
          (ground (arith, r.others k (apart k live), r.others u (apart u live')));
  }
