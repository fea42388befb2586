-- ===== src/Sched/Invariant/Attach.antt =====
-- Putting a task that is off its lists on the ready queue or on the sleep list.
use so_rtos.Base.{
  ℕ, ◌≡◌, ◌≢◌, ◌==◌, true, false, List, none, some, arith, Bool-cases, inl, inr, ap, refl, Option,
  ltb,
}
use so_rtos.Task.{Task, is_ready}
use so_rtos.Sched.{Sched, modify}
use so_rtos.Sched.Vruntime.{vruntime_lt}
use so_rtos.Sched.Heap.{heap_insert, get_min_vruntime}
use so_rtos.Sched.Heap.Swap.{Fits}
use so_rtos.Sched.Heap.Index.{heap_index}
use so_rtos.Sched.Heap.Valid.{IsHeap, Inserts}
use so_rtos.Sched.Heap.Insert.{heap_insert-IsHeap}
use so_rtos.Sched.Sleep.{next_of, requeue, insert_into_sleep_list, wake_tick, set_vruntime}
use so_rtos.Sched.Sleep.Remove.{Relinks}
use so_rtos.Sched.Sleep.Insert.{place, contains-place, insert_into_sleep_list-IsSleepList}
use so_rtos.Sched.Invariant.{IsValid, IsOff, state_of, vruntime_or_zero, curr_vruntime}
use so_rtos.Sched.Invariant.Room.{list_room, heap_room}
use so_rtos.Sched.Invariant.Off.{IsSleepList-agree, IsHeap-agree, floor-agree, modify-IsOff}

-- `s'` is `s` but for the task `t`, the order of the lists and their links.
pub record Moves (t : ℕ) (s s' : Sched) : Type 0 where
  pub frame : s' ≡ record s {
    task_of = s'.task_of;
    ready_heap = s'.ready_heap;
    heap_size = s'.heap_size;
    sleep_list = s'.sleep_list;
  }
  pub others :
      (k : ℕ)
      → k ≢ t
      → s'.task_of k ≡ record (s.task_of k) { heap_index = heap_index s' k; next = next_of s' k }

pub Moves-trans : {t : ℕ} {s u w : Sched} → Moves t s u → Moves t u w → Moves t s w
Moves-trans p q = record {
  frame = ground (arith, p.frame, q.frame);
  others = λ k ne. ground (arith, p.others k ne, q.others k ne);
}

pub modify-Moves : (s : Sched) (t : ℕ) (f : Task → Task) → Moves t s (modify s t f)
modify-Moves s t f = record { frame = refl; others = λ k ne. ground arith }

module _ (base : ℕ) (s : Sched) (xs : List ℕ) (t : ℕ) where
  -- `_heap_insert` settles a ready task.
  pub heap_insert-IsValid :
      IsOff false t base s xs
      → is_ready (state_of s t) ≡ true
      → (s.task_of t).is_idle ≡ false
      → IsValid base (heap_insert s t) xs × Inserts t s (heap_insert s t)
  heap_insert-IsValid v ready busy =
      let room =
        heap_room s t v.heap.indexed
          (λ k q. elim (Bool-cases (k == t)) [
            | inl e ↦ ground (arith, v.own_pool)
            | inr e ↦ v.pool k (ground arith) (ground (arith, v.queued k))
          ])
          v.own_pool v.off_heap in
      let (heap, r) = heap_insert-IsHeap base s t v.heap room v.off_heap v.own_fits in
      let s' = heap_insert s t in
      (
        record {
          heap = heap;
          sleep =
              IsSleepList-agree s s' xs (ap (λ x. x.sleep_list) r.frame)
                (λ k m. ap (λ x. x.next) (r.task k)) v.sleep;
          pool = λ k p. elim (Bool-cases (k == t)) [
            | inl e ↦ ground (arith, v.own_pool)
            | inr e ↦ v.pool k (ground arith) (ground (arith, r.task k))
          ];
          fits = λ k p. elim (Bool-cases (k == t)) [
            | inl e ↦
                let same : t ≡ k = ground arith in ground (arith, r.task k, rw same at v.own_fits)
            | inr e ↦ ground (arith, r.task k, v.fits k)
          ];
          floor =
              floor-agree base s s' (ap (λ x. x.curr) r.frame)
                (λ k. ap (λ x. x.vruntime) (r.task k)) v.floor;
          queued = λ k. elim (Bool-cases (k == t)) [
            | inl e ↦
                let same : k ≡ t = ground arith in rw same (ground (arith, r.task t, r.queued t))
            | inr e ↦ ground (arith, r.task k, r.queued k, v.queued k)
          ];
          sleeping = λ k. elim (Bool-cases (k == t)) [
            | inl e ↦
                let same : k ≡ t = ground arith in rw same (ground (arith, r.task t, v.off_sleep))
            | inr e ↦ ground (arith, r.task k, v.sleeping k)
          ];
        },
        r,
      )

  -- What `_get_min_vruntime` returns is in the window too.
  pub min-Fits_of : IsHeap base s → Fits base (curr_vruntime s) → Fits base (get_min_vruntime s)
  unfolding get_min_vruntime
  min-Fits_of heap floor = elim (Bool-cases (ltb 0 s.heap_size)) [
    | inl e ↦ rw (e, get_min_vruntime) (heap.windowed 0 (ground arith))
    | inr e ↦ rw (e, get_min_vruntime) (at_curr s.curr floor)
  ]
    where
      at_curr :
          (p : Option ℕ)
          → Fits base (vruntime_or_zero s p)
          → Fits base (elim p [ none ↦ 0 | some c ↦ (s.task_of c).vruntime ])
      at_curr none h = h
      at_curr (some c) h = h

  pub min-Fits : IsOff false t base s xs → Fits base (get_min_vruntime s)
  min-Fits v = min-Fits_of v.heap v.floor

  requeue-caught_up :
      vruntime_lt (s.task_of t).vruntime (get_min_vruntime s) ≡ true
      → requeue s t ≡ heap_insert (modify s t (set_vruntime (get_min_vruntime s))) t
  unfolding requeue
  requeue-caught_up e = rw (e, requeue)

  requeue-kept :
      vruntime_lt (s.task_of t).vruntime (get_min_vruntime s) ≡ false
      → requeue s t ≡ heap_insert s t
  unfolding requeue
  requeue-kept e = rw (e, requeue)

-- A task that becomes ready is queued, with all else in place, and no other task is touched.
pub requeue-IsValid :
    (base : ℕ) (s : Sched) (xs : List ℕ) (t : ℕ)
    → IsOff false t base s xs
    → is_ready (state_of s t) ≡ true
    → (s.task_of t).is_idle ≡ false
    → IsValid base (requeue s t) xs
      × Moves t s (requeue s t)
      × (state_of (requeue s t) t ≡ state_of s t)
      × (((requeue s t).task_of t).weight ≡ (s.task_of t).weight)
      × (((requeue s t).task_of t).event_mask ≡ (s.task_of t).event_mask)
      × (((requeue s t).task_of t).event_flags ≡ (s.task_of t).event_flags)
requeue-IsValid base s xs t v ready busy =
    elim (Bool-cases (vruntime_lt (s.task_of t).vruntime (get_min_vruntime s))) [
      | inl e ↦
          let f = set_vruntime (get_min_vruntime s) in
          let (valid, r) =
            heap_insert-IsValid base (modify s t f) xs t
              (modify-IsOff base s xs t false f refl (λ _. refl) (min-Fits base s xs t v) v)
              (ground arith) (ground arith) in
          rw (requeue-caught_up base s xs t e) (
            valid,
            record { frame = ground (arith, r.frame); others = λ k ne. ground (arith, r.task k) },
            ground (arith, r.task t),
            ground (arith, r.task t),
            ground (arith, r.task t),
            ground (arith, r.task t),
          )
      | inr e ↦
          let (valid, r) = heap_insert-IsValid base s xs t v ready busy in
          rw (requeue-kept base s xs t e) (
            valid,
            record { frame = ground (arith, r.frame); others = λ k ne. ground (arith, r.task k) },
            ground (arith, r.task t),
            ground (arith, r.task t),
            ground (arith, r.task t),
            ground (arith, r.task t),
          )
    ]

-- A task that is off its lists is put on the sleep list.
pub insert_into_sleep_list-IsOff :
    (base : ℕ) (s : Sched) (xs : List ℕ) (t : ℕ)
    → IsOff false t base s xs
    → IsOff true t base (insert_into_sleep_list s t) (place (wake_tick s) t xs)
      × Relinks s (insert_into_sleep_list s t)
insert_into_sleep_list-IsOff base s xs t v =
    let room =
      list_room t xs v.sleep.distinct
        (λ k c. elim (Bool-cases (k == t)) [
          | inl e ↦ ground (arith, v.own_pool)
          | inr e ↦ v.pool k (ground arith) (ground (arith, v.sleeping k))
        ])
        v.own_pool v.off_sleep in
    let (sleep, r) = insert_into_sleep_list-IsSleepList s xs t v.sleep room v.off_sleep in
    let s' = insert_into_sleep_list s t in
    let on = contains-place (wake_tick s) t xs in
    (
      record {
        heap =
            IsHeap-agree base s s' (ap (λ x. x.heap_size) r.frame)
              (λ i. ap (λ x. x.ready_heap i) r.frame) (λ k. ap (λ x. x.heap_index) (r.task k))
              (λ k p. ap (λ x. x.vruntime) (r.task k)) v.heap;
        sleep = sleep;
        pool = λ k ne p. v.pool k ne (ground (arith, r.task k));
        fits = λ k ne p. ground (arith, r.task k, v.fits k ne);
        floor =
            floor-agree base s s' (ap (λ x. x.curr) r.frame) (λ k. ap (λ x. x.vruntime) (r.task k))
              v.floor;
        queued = λ k ne. ground (arith, r.task k, v.queued k ne);
        sleeping = λ k ne. ground (arith, r.task k, v.sleeping k ne, on k);
        own_pool = v.own_pool;
        own_fits = ground (arith, r.task t, v.own_fits);
        off_heap = ground (arith, r.task t, v.off_heap);
        off_sleep = ground (arith, on t);
      },
      r,
    )
