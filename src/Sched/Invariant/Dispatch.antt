-- ===== src/Sched/Invariant/Dispatch.antt =====
-- `schedule_next_task` keeps the invariant and runs a queued task with the least virtual runtime.
use so_rtos.Base.{
  ℕ, ◌≡◌, ◌<◌, Bool, true, false, ◌&&◌, ◌||◌, List, Option, none, some, is_null, arith, Bool-cases,
  Option-cases, inl, inr, ap, refl, if_true, if_false, ◌∙◌, subst, sym, ◌==◌,
}
use so_rtos.Task.{TaskState, is_ready, is_running}
use so_rtos.Sched.{Sched, modify}
use so_rtos.Sched.Vruntime.{vruntime_lt}
use so_rtos.Sched.Heap.{heap_pop_min}
use so_rtos.Sched.Heap.Index.{heap_index, IsIndexed}
use so_rtos.Sched.Heap.Valid.{IsHeap}
use so_rtos.Sched.Heap.Remove.{heap_pop_min-IsHeap, heap_pop_min-empty, root_least}
use so_rtos.Sched.Switch.{
  Ends, account, yield_current, dispatch, run_at, stay, idle_or_stay, run_best, schedule_next_task,
}
use so_rtos.Sched.Invariant.{IsValid, IsOff, state_of}
use so_rtos.Sched.Invariant.Off.{
  IsOff-of_valid, modify-IsOff, settle-IsValid, IsSleepList-agree, floor-agree,
}
use so_rtos.Sched.Invariant.Touch.{set_curr-IsValid}
use so_rtos.Sched.Invariant.Yield.{
  ChargeFits, Yielded, yield_current-Yielded, account-Yielded, ChargeFits-account, curr-account,
  count-account,
}

dispatch-IsValid :
    (base : ℕ) (s : Sched) (xs : List ℕ) (t now : ℕ)
    → IsOff false t base s xs
    → IsValid base (dispatch s t now) xs
dispatch-IsValid base s xs t now off =
    let s' = modify s t (run_at now) in
    let off' = modify-IsOff base s xs t false (run_at now) refl (λ _. refl) off.own_fits off in
    set_curr-IsValid base s' xs (some t) off'.own_fits
      (settle-IsValid base s' xs t false off' (ground arith) (ground arith))

-- The root leaves the ready queue, and every other task is where it was.
popped-IsOff :
    (base : ℕ) (s : Sched) (xs : List ℕ)
    → IsValid base s xs
    → 0 < s.heap_size
    → IsOff false (s.ready_heap 0) base (heap_pop_min s).1 xs
popped-IsOff base s xs v h =
    let (_, heap, r) = heap_pop_min-IsHeap base s v.heap h in
    let t = s.ready_heap 0 in
    let s' = (heap_pop_min s).1 in
    let at = v.heap.indexed.slots 0 h in
    record {
      heap = heap;
      sleep =
          IsSleepList-agree s s' xs (ap (λ x. x.sleep_list) r.frame)
            (λ k m. ap (λ x. x.next) (r.task k)) v.sleep;
      pool = λ k ne p. v.pool k (ground (arith, r.task k));
      fits = λ k ne p. ground (arith, r.task k, v.fits k);
      floor =
          floor-agree base s s' (ap (λ x. x.curr) r.frame) (λ k. ap (λ x. x.vruntime) (r.task k))
            v.floor;
      queued = λ k ne. ground (arith, r.task k, r.queued k, v.queued k);
      sleeping = λ k ne. ground (arith, r.task k, v.sleeping k);
      own_pool = v.pool t (ground (arith, v.queued t));
      own_fits = ground (arith, r.task t, v.fits t, v.queued t);
      off_heap = ground (arith, r.queued t);
      off_sleep = ground (arith, v.sleeping t, v.queued t);
    }

stay-IsValid :
    (base : ℕ) (s : Sched) (xs : List ℕ) (now : ℕ) (p : Option ℕ)
    → IsValid base s xs
    → ((c : ℕ) → p ≡ some c → heap_index s c ≡ none)
    → IsValid base (stay s now p).1 xs
unfolding stay
stay-IsValid base s xs now none v off = v
stay-IsValid base s xs now (some c) v off =
    elim (Bool-cases (is_ready (state_of s c) || is_running (state_of s c))) [
      | inl e ↦
          let o =
            IsOff-of_valid base s xs c v (ground arith) (off c refl)
              (ground (arith, v.sleeping c)) in
          let s' = modify s c (run_at now) in
          rw (if_true _ _ e) (
            settle-IsValid base s' xs c false
              (modify-IsOff base s xs c false (run_at now) refl (λ _. refl) o.own_fits o)
              (ground arith) (ground arith))
      | inr e ↦ rw (if_false _ _ e) v
    ]

idle_or_stay-IsValid :
    (base : ℕ) (s : Sched) (xs : List ℕ) (now : ℕ) (p : Option ℕ)
    → IsValid base s xs
    → s.heap_size ≡ 0
    → ((i : ℕ) → p ≡ some i → (s.task_of i).is_idle ≡ true)
    → IsValid base (idle_or_stay s now p).1 xs
unfolding idle_or_stay
idle_or_stay-IsValid base s xs now p v empty idle = by_idle p idle
  where
    off : (c : ℕ) → heap_index s c ≡ none
    off c = elim (Option-cases (heap_index s c)) [
      | inl e ↦ e
      | inr (i, e) ↦ absurd (omega (arith, v.heap.indexed.tasks c i e))
    ]

    by_idle :
        (q : Option ℕ)
        → ((i : ℕ) → q ≡ some i → (s.task_of i).is_idle ≡ true)
        → IsValid base (idle_or_stay s now q).1 xs
    by_idle none h = stay-IsValid base s xs now s.curr v (λ c _. off c)
    by_idle (some i) h = elim (Bool-cases (is_ready (state_of s i))) [
      | inl e ↦ rw (if_true _ _ e) (
          dispatch-IsValid base s xs i now
            (IsOff-of_valid base s xs i v (ground arith) (off i) (ground (arith, v.sleeping i))))
      | inr e ↦ rw (if_false _ _ e) (stay-IsValid base s xs now s.curr v (λ c _. off c))
    ]

run_best-some :
    (s : Sched) (now : ℕ) {t : ℕ}
    → (heap_pop_min s).0 ≡ some t
    → run_best (heap_pop_min s) now ≡ (Ends.settles, dispatch (heap_pop_min s).1 t now)
unfolding run_best
run_best-some s now e = ap (λ p. run_best (p, (heap_pop_min s).1) now) e

run_best-IsValid :
    (base : ℕ) (s : Sched) (xs : List ℕ) (now : ℕ)
    → IsValid base s xs
    → ((i : ℕ) → s.idle_task ≡ some i → (s.task_of i).is_idle ≡ true)
    → IsValid base (run_best (heap_pop_min s) now).1 xs
unfolding run_best
run_best-IsValid base s xs now v idle = elim (Bool-cases (s.heap_size == 0)) [
  | inl e ↦
      let empty : s.heap_size ≡ 0 = ground arith in
      rw (heap_pop_min-empty s empty) (idle_or_stay-IsValid base s xs now s.idle_task v empty idle)
  | inr e ↦
      let pos : 0 < s.heap_size = ground arith in
      rw (run_best-some s now (heap_pop_min-IsHeap base s v.heap pos).0) (
        dispatch-IsValid base (heap_pop_min s).1 xs (s.ready_heap 0) now
          (popped-IsOff base s xs v pos))
]

queued_pos : (s : Sched) (t : ℕ) → IsIndexed s → is_null (heap_index s t) ≡ false → 0 < s.heap_size
queued_pos s t v q = elim (Option-cases (heap_index s t)) [
  | inl e ↦ absurd (ground arith)
  | inr (i, e) ↦ omega (arith, v.tasks t i e)
]

queued_least :
    (base : ℕ) (s : Sched) (t : ℕ)
    → IsHeap base s
    → is_null (heap_index s t) ≡ false
    → vruntime_lt (s.task_of t).vruntime (s.task_of (s.ready_heap 0)).vruntime ≡ false
queued_least base s t v q = elim (Option-cases (heap_index s t)) [
  | inl e ↦ absurd (ground arith)
  | inr (i, e) ↦ root_least base s v t i e
]

-- The state in which the next task is picked.
picking : Sched → ℕ → Sched
picking s now = yield_current (account s now s.curr) (account s now s.curr).curr

-- `g_sched.count == 0 && ctx->idle_task == NULL`, after the accounting.
abbrev nothing_to_run : Sched → ℕ → Bool
nothing_to_run s now = (account s now s.curr).count == 0 && is_null (account s now s.curr).idle_task

schedule_early :
    (s : Sched) (now : ℕ)
    → nothing_to_run s now ≡ true
    → schedule_next_task s now ≡ (Ends.settles, account s now s.curr)
unfolding schedule_next_task
schedule_early s now e = if_true _ _ e

schedule_picks :
    (s : Sched) (now : ℕ)
    → nothing_to_run s now ≡ false
    → schedule_next_task s now ≡ run_best (heap_pop_min (picking s now)) now
unfolding schedule_next_task picking
schedule_picks s now e = if_false _ _ e

abbrev pub IdleIsIdle : Sched → Type 0
IdleIsIdle s = (i : ℕ) → s.idle_task ≡ some i → (s.task_of i).is_idle ≡ true

module _ (base : ℕ) (s : Sched) (xs : List ℕ) (now : ℕ) (v : IsValid base s xs)
    (fits : ChargeFits base s s.curr) where
  picking-Yielded : Yielded base s (picking s now) xs
  unfolding picking
  picking-Yielded =
      let first = account-Yielded base s xs now s.curr v in
      let s' = account s now s.curr in
      let fits' : ChargeFits base s' s'.curr =
        subst (ChargeFits base s') (sym (curr-account s now s.curr))
          (ChargeFits-account base s now s.curr fits) in
      let second = yield_current-Yielded base s' xs s'.curr first.valid fits' in
      record {
        valid = second.valid;
        idle_task = second.idle_task ∙ first.idle_task;
        idle = λ k. second.idle k ∙ first.idle k;
        ready = λ k h. second.ready k (first.ready k h);
      }

  -- `schedule_next_task` keeps the invariant, whichever way it ends, if the charge of the task that
  -- ran leaves it in the window and the idle task is marked as one.
  pub schedule_next_task-IsValid : IdleIsIdle s → IsValid base (schedule_next_task s now).1 xs
  schedule_next_task-IsValid idle =
      let y = picking-Yielded in
      elim (Bool-cases (nothing_to_run s now)) [
        | inl e ↦ rw (schedule_early s now e) (account-Yielded base s xs now s.curr v).valid
        | inr e ↦ rw (schedule_picks s now e) (
            run_best-IsValid base (picking s now) xs now y.valid
              (λ i h. y.idle i ∙ idle i (sym y.idle_task ∙ h)))
      ]

  -- In a state that holds the invariant, with tasks counted, one of them ready and not idle, and a
  -- charge of the task that ran that leaves it in the window, `schedule_next_task` makes a task the
  -- current one, puts it in the running state, and no queued task is ahead of it by virtual runtime.
  pub schedule_next_task-first :
      (t : ℕ)
      → is_ready (state_of s t) ≡ true
      → (s.task_of t).is_idle ≡ false
      → (s.count == 0) ≡ false
      → let (ends, s') = schedule_next_task s now in
        (c : ℕ) × (ends ≡ Ends.settles)
        × (s'.curr ≡ some c)
        × (state_of s' c ≡ TaskState.running)
        × ((k : ℕ)
            → is_null (heap_index s' k) ≡ false
            → vruntime_lt (s'.task_of k).vruntime (s'.task_of c).vruntime ≡ false)
  schedule_next_task-first t ready busy some_task =
      let y = picking-Yielded in
      let u = picking s now in
      let queued : is_null (heap_index u t) ≡ false =
        ground (arith, y.valid.queued t, y.ready t ready, y.idle t) in
      let pos : 0 < u.heap_size = queued_pos u t y.valid.heap.indexed queued in
      let (popped, _, r) = heap_pop_min-IsHeap base u y.valid.heap pos in
      let c = u.ready_heap 0 in
      let w = (heap_pop_min u).1 in
      rw
        (
          schedule_picks s now (ground (arith, count-account s now s.curr)),
          run_best-some u now popped,
        )
        (
          c,
          refl,
          refl,
          ground arith,
          λ k q. ground (arith, r.task k, r.task c, r.queued k, queued_least base u k y.valid.heap),
        )
