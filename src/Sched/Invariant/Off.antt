-- ===== src/Sched/Invariant/Off.antt =====
-- Taking a task out of its list, changing it, and settling it in its new state.
use so_rtos.Base.{
  ℕ, ◌≡◌, ◌<◌, ◌==◌, Bool, true, false, not, ◌&&◌, List, none, some, is_null, arith, Bool-cases,
  inl, inr, ap, refl, Option, subst, sym, ◌∙◌,
}
use so_rtos.Chain.{contains, erase, contains-erase, IsChain-agree}
use so_rtos.Task.{Task, is_ready, is_sleeping}
use so_rtos.Sched.{Sched, modify}
use so_rtos.Sched.Heap.{heap_remove, vruntime_at, parent}
use so_rtos.Sched.Heap.Swap.{Fits, rank}
use so_rtos.Sched.Heap.Index.{heap_index}
use so_rtos.Sched.Heap.Valid.{IsHeap}
use so_rtos.Sched.Heap.Remove.{heap_remove-IsHeap}
use so_rtos.Sched.Sleep.{next_of, remove_from_sleep_list}
use so_rtos.Sched.Sleep.Remove.{IsSleepList, remove_from_sleep_list-IsSleepList}
use so_rtos.Sched.Invariant.{IsValid, IsOff, is_live, state_of, curr_vruntime, vruntime_or_zero}

-- The heap's invariant reads the array, the indices, and the runtimes of queued tasks.
pub IsHeap-agree :
    (base : ℕ) (s s' : Sched)
    → s'.heap_size ≡ s.heap_size
    → ((i : ℕ) → s'.ready_heap i ≡ s.ready_heap i)
    → ((k : ℕ) → heap_index s' k ≡ heap_index s k)
    → ((k : ℕ)
        → is_null (heap_index s k) ≡ false
        → (s'.task_of k).vruntime ≡ (s.task_of k).vruntime)
    → IsHeap base s
    → IsHeap base s'
unfolding rank
IsHeap-agree base s s' size array index run v = record {
  bounded = rw size v.bounded;
  indexed = record {
    slots = λ i p. ground (arith, v.indexed.slots i, array i, index (s'.ready_heap i));
    tasks = λ t i e. ground (arith, v.indexed.tasks t i, array i, index t);
  };
  windowed = λ i p. ground (arith, v.windowed i, same i);
  ordered = λ c p q. ground (arith, v.ordered c p, same c, same (parent c));
}
  where
    same : (i : ℕ) → i < s.heap_size → vruntime_at s' i ≡ vruntime_at s i
    same i p = ground (arith, array i, run (s.ready_heap i), v.indexed.slots i p)

-- The sleep list's invariant reads its head and its own links.
pub IsSleepList-agree :
    (s s' : Sched) (xs : List ℕ)
    → s'.sleep_list ≡ s.sleep_list
    → ((k : ℕ) → contains xs k ≡ true → next_of s' k ≡ next_of s k)
    → IsSleepList s xs
    → IsSleepList s' xs
IsSleepList-agree s s' xs head links v = record {
  chain = rw head (IsChain-agree (next_of s) (next_of s') s.sleep_list xs links v.chain);
  distinct = v.distinct;
  short = v.short;
}

vruntime_or_zero-agree :
    (s s' : Sched) (p : Option ℕ)
    → ((k : ℕ) → (s'.task_of k).vruntime ≡ (s.task_of k).vruntime)
    → vruntime_or_zero s' p ≡ vruntime_or_zero s p
vruntime_or_zero-agree s s' none h = refl
vruntime_or_zero-agree s s' (some c) h = h c

pub floor-agree :
    (base : ℕ) (s s' : Sched)
    → s'.curr ≡ s.curr
    → ((k : ℕ) → (s'.task_of k).vruntime ≡ (s.task_of k).vruntime)
    → Fits base (curr_vruntime s)
    → Fits base (curr_vruntime s')
floor-agree base s s' same run f =
    subst (Fits base) (sym (ap (vruntime_or_zero s') same ∙ vruntime_or_zero-agree s s' s.curr run))
      f

module _ (base : ℕ) (s : Sched) (xs : List ℕ) (t : ℕ) where
  -- A task that is in neither list may be changed at once.
  pub IsOff-of_valid :
      IsValid base s xs
      → is_live (state_of s t) ≡ true
      → heap_index s t ≡ none
      → contains xs t ≡ false
      → IsOff false t base s xs
  IsOff-of_valid v live out awake = record {
    heap = v.heap;
    sleep = v.sleep;
    pool = λ k ne. v.pool k;
    fits = λ k ne. v.fits k;
    floor = v.floor;
    queued = λ k ne. v.queued k;
    sleeping = λ k ne. v.sleeping k;
    own_pool = v.pool t live;
    own_fits = v.fits t live;
    off_heap = out;
    off_sleep = awake;
  }

  -- `_heap_remove` takes a ready task off.
  pub heap_remove-IsOff :
      (i : ℕ)
      → IsValid base s xs
      → is_live (state_of s t) ≡ true
      → heap_index s t ≡ some i
      → contains xs t ≡ false
      → IsOff false t base (heap_remove s t) xs
  heap_remove-IsOff i v live at awake =
      let (heap, r) = heap_remove-IsHeap base s v.heap t i at in
      record {
        heap = heap;
        sleep =
            IsSleepList-agree s (heap_remove s t) xs (ap (λ x. x.sleep_list) r.frame)
              (λ k m. ap (λ x. x.next) (r.task k)) v.sleep;
        pool = λ k ne p. v.pool k (ground (arith, r.task k));
        fits = λ k ne p. ground (arith, r.task k, v.fits k);
        floor =
            floor-agree base s (heap_remove s t) (ap (λ x. x.curr) r.frame)
              (λ k. ap (λ x. x.vruntime) (r.task k)) v.floor;
        queued = λ k ne. ground (arith, r.task k, r.queued k, v.queued k);
        sleeping = λ k ne. ground (arith, r.task k, v.sleeping k);
        own_pool = v.pool t live;
        own_fits = ground (arith, r.task t, v.fits t live);
        off_heap = ground (arith, r.queued t);
        off_sleep = awake;
      }

  -- `_remove_from_sleep_list` takes a sleeping task off.
  pub remove_from_sleep_list-IsOff :
      IsValid base s xs
      → is_live (state_of s t) ≡ true
      → heap_index s t ≡ none
      → IsOff false t base (remove_from_sleep_list s t) (erase t xs)
  remove_from_sleep_list-IsOff v live out =
      let (sleep, r) = remove_from_sleep_list-IsSleepList s xs t v.sleep in
      let s' = remove_from_sleep_list s t in
      record {
        heap =
            IsHeap-agree base s s' (ap (λ x. x.heap_size) r.frame)
              (λ i. ap (λ x. x.ready_heap i) r.frame) (λ k. ap (λ x. x.heap_index) (r.task k))
              (λ k p. ap (λ x. x.vruntime) (r.task k)) v.heap;
        sleep = sleep;
        pool = λ k ne p. v.pool k (ground (arith, r.task k));
        fits = λ k ne p. ground (arith, r.task k, v.fits k);
        floor =
            floor-agree base s s' (ap (λ x. x.curr) r.frame) (λ k. ap (λ x. x.vruntime) (r.task k))
              v.floor;
        queued = λ k ne. ground (arith, r.task k, v.queued k);
        sleeping =
            λ k ne. ground (arith, r.task k, v.sleeping k, contains-erase t k xs v.sleep.distinct);
        own_pool = v.pool t live;
        own_fits = ground (arith, r.task t, v.fits t live);
        off_heap = ground (arith, r.task t);
        off_sleep = ground (arith, contains-erase t t xs v.sleep.distinct);
      }

  -- A task that is off its lists may be changed at will, but for its index and a live link.
  pub modify-IsOff :
      (asleep : Bool) (f : Task → Task)
      → (f (s.task_of t)).heap_index ≡ (s.task_of t).heap_index
      → (asleep ≡ true → (f (s.task_of t)).next ≡ (s.task_of t).next)
      → Fits base (f (s.task_of t)).vruntime
      → IsOff asleep t base s xs
      → IsOff asleep t base (modify s t f) xs
  modify-IsOff asleep f index link fits v = record {
    heap =
        IsHeap-agree base s (modify s t f) refl (λ i. refl) (λ k. ground arith)
          (λ k q. ground (arith, v.off_heap)) v.heap;
    sleep =
        IsSleepList-agree s (modify s t f) xs refl
          (λ k m. ground (arith, v.off_sleep, ap (contains xs))) v.sleep;
    pool = λ k ne p. v.pool k ne (ground arith);
    fits = λ k ne p. ground (arith, v.fits k ne);
    floor = floor_modify s.curr v.floor;
    queued = λ k ne. ground (arith, v.queued k ne);
    sleeping = λ k ne. ground (arith, v.sleeping k ne);
    own_pool = v.own_pool;
    own_fits = ground (arith, fits);
    off_heap = ground (arith, v.off_heap);
    off_sleep = v.off_sleep;
  }
    where
      floor_modify :
          (p : Option ℕ)
          → Fits base (vruntime_or_zero s p)
          → Fits base (vruntime_or_zero (modify s t f) p)
      floor_modify none h = h
      floor_modify (some c) h = ground (arith, fits)

  -- A task that is off the heap is settled once its state tells where it is.
  pub settle-IsValid :
      (asleep : Bool)
      → IsOff asleep t base s xs
      → is_sleeping (state_of s t) ≡ asleep
      → (is_ready (state_of s t) && not (s.task_of t).is_idle) ≡ false
      → IsValid base s xs
  settle-IsValid asleep v asleep_state off = record {
    heap = v.heap;
    sleep = v.sleep;
    pool = λ k p. elim (Bool-cases (k == t)) [
      | inl e ↦ ground (arith, v.own_pool)
      | inr e ↦ v.pool k (ground arith) p
    ];
    fits = λ k p. elim (Bool-cases (k == t)) [
      | inl e ↦ let same : t ≡ k = ground arith in rw same at v.own_fits
      | inr e ↦ v.fits k (ground arith) p
    ];
    floor = v.floor;
    queued = λ k. elim (Bool-cases (k == t)) [
      | inl e ↦ let same : k ≡ t = ground arith in rw same (ground (arith, v.off_heap))
      | inr e ↦ v.queued k (ground arith)
    ];
    sleeping = λ k. elim (Bool-cases (k == t)) [
      | inl e ↦ let same : k ≡ t = ground arith in rw same (ground (arith, v.off_sleep))
      | inr e ↦ v.sleeping k (ground arith)
    ];
  }
