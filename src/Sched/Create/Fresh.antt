-- ===== src/Sched/Create/Fresh.antt =====
-- kernel/src/scheduler.c: a new task takes a free slot and a free ID, and is queued.
use so_rtos.Base.{
  ℕ, ◌≡◌, ◌≢◌, refl, arith, true, false, Option, none, some, List, ◌∷◌, ap, sym, subst, ◌∙◌, ◌+◌,
  ◌%◌, Bool-cases, inl, inr, ◌==◌, if_true, if_false, ltb,
}
use so_rtos.Chain.{contains}
use so_rtos.Task.{max_cpus, is_unused}
use so_rtos.Sched.{Sched, modify}
use so_rtos.Sched.Heap.{get_min_vruntime, heap_insert}
use so_rtos.Sched.Heap.Swap.{Fits}
use so_rtos.Sched.Heap.Valid.{Inserts}
use so_rtos.Sched.Heap.Index.{heap_index}
use so_rtos.Sched.Block.{is_id_used, mark_id}
use so_rtos.Sched.Invariant.{IsValid, IsOff, is_live, state_of, vruntime_or_zero}
use so_rtos.Sched.Invariant.Off.{IsHeap-agree, IsSleepList-agree, floor-agree}
use so_rtos.Sched.Invariant.Attach.{heap_insert-IsValid, min-Fits_of}
use so_rtos.Sched.Collect.{take_slot}
use so_rtos.Sched.Collect.Pool.{IsId, Pooled}
use so_rtos.Sched.Weight.{at_least_one}
use so_rtos.Sched.Create.{with_stack, with_start, enlist}

-- The slot with its stack, before its ID is found.
abbrev pub with_slot : Sched → ℕ → ℕ → ℕ → ℕ → Sched
with_slot s t stack size psp = modify (take_slot s t) t (with_stack stack size psp)

-- The task before it is queued.
abbrev prepared : Sched → ℕ → ℕ → ℕ → Sched
prepared s t id weight =
    modify (record (mark_id true s id) { next_cpu = (s.next_cpu + 1) % max_cpus }) t
      (with_start s id (at_least_one weight))

-- The invariant does not read the count.
pub count-IsValid :
    (base : ℕ) (s : Sched) (ys : List ℕ) (n : ℕ)
    → IsValid base s ys
    → IsValid base (record s { count = n }) ys
count-IsValid base s ys n v = record {
  heap =
      IsHeap-agree base s (record s { count = n }) refl (λ i. refl) (λ k. refl) (λ k q. refl)
        v.heap;
  sleep = IsSleepList-agree s (record s { count = n }) ys refl (λ k m. refl) v.sleep;
  pool = v.pool;
  fits = v.fits;
  floor = floor-agree base s (record s { count = n }) refl (λ k. refl) v.floor;
  queued = v.queued;
  sleeping = v.sleeping;
}

run_kept :
    (s : Sched) (t stack size psp k : ℕ)
    → ((with_slot s t stack size psp).task_of k).vruntime ≡ (s.task_of k).vruntime
run_kept s t stack size psp k = ground arith

pub min-kept :
    (s : Sched) (t stack size psp : ℕ)
    → get_min_vruntime (with_slot s t stack size psp) ≡ get_min_vruntime s
unfolding get_min_vruntime
min-kept s t stack size psp = elim (Bool-cases (ltb 0 s.heap_size)) [
  | inl e ↦ if_true _ _ e ∙ (run_kept s t stack size psp (s.ready_heap 0) ∙ sym (if_true _ _ e))
  | inr e ↦ if_false _ _ e ∙ (by_curr s.curr ∙ sym (if_false _ _ e))
]
  where
    by_curr :
        (p : Option ℕ) → vruntime_or_zero (with_slot s t stack size psp) p ≡ vruntime_or_zero s p
    by_curr none = refl
    by_curr (some c) = run_kept s t stack size psp c

module _ (base : ℕ) (s : Sched) (ys zs fs : List ℕ) (t stack size psp id weight : ℕ)
    (v : Pooled base s ys zs (t ∷ fs)) (range : IsId id) (free : is_id_used s id ≡ false) where
  dead : is_unused (state_of s t) ≡ true
  dead = v.pool.unused t (ground arith)

  apart : (k : ℕ) → is_live (state_of s k) ≡ true → k ≢ t
  apart k live q = ground (arith, dead, ap (λ j. is_live (state_of s j)) q)

  awake : contains ys t ≡ false
  awake = ground (arith, v.valid.sleeping t, dead)

  unqueued : heap_index s t ≡ none
  unqueued = ground (arith, v.valid.queued t, dead)

  fair : Fits base (get_min_vruntime (with_slot s t stack size psp))
  fair =
      subst (Fits base) (sym (min-kept s t stack size psp))
        (min-Fits_of base s ys t v.valid.heap v.valid.floor)

  pub prepared-others :
      (k : ℕ)
      → k ≢ t
      → (prepared (with_slot s t stack size psp) t id weight).task_of k ≡ s.task_of k
  unfolding mark_id
  prepared-others k ne = ground arith

  prepared-IsOff : IsOff false t base (prepared (with_slot s t stack size psp) t id weight) ys
  unfolding mark_id
  prepared-IsOff =
      let u = with_slot s t stack size psp in
      let s' = prepared u t id weight in
      record {
        heap =
            IsHeap-agree base s s' refl (λ i. refl)
              (λ k. elim (Bool-cases (k == t)) [
                | inl e ↦ let at : k ≡ t = ground arith in rw at (ground (arith, unqueued))
                | inr e ↦ ground arith
              ])
              (λ k q. elim (Bool-cases (k == t)) [
                | inl e ↦
                    let at : k ≡ t = ground arith in
                    absurd (ground (arith, unqueued, ap (heap_index s) at))
                | inr e ↦ ground arith
              ])
              v.valid.heap;
        sleep =
            IsSleepList-agree s s' ys refl
              (λ k m.
                ap (λ x. x.next)
                  (prepared-others k (λ q. ground (arith, awake, ap (contains ys) q))))
              v.valid.sleep;
        pool = λ k ne live. v.valid.pool k (ground (arith, prepared-others k ne));
        fits = λ k ne live. ground (arith, prepared-others k ne, v.valid.fits k);
        floor = floor s.curr v.valid.floor;
        queued = λ k ne. ground (arith, prepared-others k ne, v.valid.queued k);
        sleeping = λ k ne. ground (arith, prepared-others k ne, v.valid.sleeping k);
        own_pool = v.pool.slots t (ground arith);
        own_fits = ground (arith, fair);
        off_heap = ground arith;
        off_sleep = awake;
      }
    where
      floor :
          (p : Option ℕ)
          → Fits base (vruntime_or_zero s p)
          → Fits base (vruntime_or_zero (prepared (with_slot s t stack size psp) t id weight) p)
      floor none h = h
      floor (some c) h = elim (Bool-cases (c == t)) [
        | inl e ↦ ground (arith, fair)
        | inr e ↦ ground arith
      ]

  -- The queue is valid with the new task on it.
  pub enlisted : IsValid base (enlist (with_slot s t stack size psp) t id weight) ys
  unfolding enlist mark_id
  enlisted =
      let s' = prepared (with_slot s t stack size psp) t id weight in
      let (valid, _) =
        heap_insert-IsValid base s' ys t prepared-IsOff (ground arith) (ground arith) in
      count-IsValid base (heap_insert s' t) ys _ valid

  pub inserts :
      let s' = prepared (with_slot s t stack size psp) t id weight in
      Inserts t s' (heap_insert s' t)
  unfolding mark_id
  inserts =
      let s' = prepared (with_slot s t stack size psp) t id weight in
      (heap_insert-IsValid base s' ys t prepared-IsOff (ground arith) (ground arith)).1

  pub enlist-others :
      (k : ℕ)
      → k ≢ t
      → let s' = enlist (with_slot s t stack size psp) t id weight in
        s'.task_of k ≡ record (s.task_of k) { heap_index = heap_index s' k }
  unfolding enlist
  enlist-others k ne = ground (arith, inserts.task k, prepared-others k ne)

  pub enlist-own :
      let u = with_slot s t stack size psp in
      let s' = enlist u t id weight in
      (s'.task_of t) ≡ record (with_start u id (at_least_one weight) (u.task_of t)) {
        heap_index = heap_index s' t;
      }
  unfolding enlist mark_id
  enlist-own = inserts.task t ∙ ground arith
