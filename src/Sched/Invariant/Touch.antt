-- ===== src/Sched/Invariant/Touch.antt =====
-- Changes that the invariant does not see.
use so_rtos.Base.{ℕ, ◌≡◌, List, Option, none, some, arith, refl}
use so_rtos.Task.{Task}
use so_rtos.Sched.{Sched, modify}
use so_rtos.Sched.Heap.Swap.{Fits}
use so_rtos.Sched.Invariant.{IsValid, vruntime_or_zero}
use so_rtos.Sched.Invariant.Off.{IsHeap-agree, IsSleepList-agree}

module _ (base : ℕ) (s : Sched) (xs : List ℕ) (t : ℕ) (f : Task → Task) where
  -- A write to a field that the invariant does not read.
  pub modify-IsValid :
      (f (s.task_of t)).heap_index ≡ (s.task_of t).heap_index
      → (f (s.task_of t)).next ≡ (s.task_of t).next
      → (f (s.task_of t)).vruntime ≡ (s.task_of t).vruntime
      → (f (s.task_of t)).state ≡ (s.task_of t).state
      → (f (s.task_of t)).is_idle ≡ (s.task_of t).is_idle
      → IsValid base s xs
      → IsValid base (modify s t f) xs
  modify-IsValid index link run state idle v = record {
    heap =
        IsHeap-agree base s (modify s t f) refl (λ i. refl) (λ k. ground arith)
          (λ k q. ground arith) v.heap;
    sleep = IsSleepList-agree s (modify s t f) xs refl (λ k m. ground arith) v.sleep;
    pool = λ k p. v.pool k (ground arith);
    fits = λ k p. ground (arith, v.fits k);
    floor = floor s.curr v.floor;
    queued = λ k. ground (arith, v.queued k);
    sleeping = λ k. ground (arith, v.sleeping k);
  }
    where
      floor :
          (p : Option ℕ)
          → Fits base (vruntime_or_zero s p)
          → Fits base (vruntime_or_zero (modify s t f) p)
      floor none h = h
      floor (some c) h = ground arith

-- Another task becomes the current one.
pub set_curr-IsValid :
    (base : ℕ) (s : Sched) (xs : List ℕ) (p : Option ℕ)
    → Fits base (vruntime_or_zero s p)
    → IsValid base s xs
    → IsValid base (record s { curr = p }) xs
set_curr-IsValid base s xs p h v = record {
  heap =
      IsHeap-agree base s (record s { curr = p }) refl (λ i. refl) (λ k. refl) (λ k q. refl) v.heap;
  sleep = IsSleepList-agree s (record s { curr = p }) xs refl (λ k m. refl) v.sleep;
  pool = v.pool;
  fits = v.fits;
  floor = floor p h;
  queued = v.queued;
  sleeping = v.sleeping;
}
  where
    floor :
        (q : Option ℕ)
        → Fits base (vruntime_or_zero s q)
        → Fits base (vruntime_or_zero (record s { curr = p }) q)
    floor none h' = h'
    floor (some c) h' = h'
