-- ===== src/Sched/Invariant/State.antt =====
-- `task_set_state`, `task_block` and `task_unblock` keep the invariant and touch no other task.
use so_rtos.Base.{
  ℕ, ◌≡◌, true, false, not, ◌&&◌, ◌||◌, List, arith, Bool-cases, Option-cases, inl, inr, ap, refl,
  if_true, if_false, ◌∙◌, leb,
}
use so_rtos.Chain.{contains, erase, erase_absent}
use so_rtos.Task.{TaskState, max_cpus, is_ready, is_sleeping, is_blocked, is_zombie}
use so_rtos.Sched.{Sched, modify}
use so_rtos.Sched.Heap.{heap_remove}
use so_rtos.Sched.Heap.Index.{heap_index}
use so_rtos.Sched.Heap.Remove.{heap_remove-IsHeap}
use so_rtos.Sched.Sleep.{end_sleep, set_state, requeue, unblock_task_locked}
use so_rtos.Sched.Block.{task_set_state, task_unblock, leave_lists}
use so_rtos.Sched.Invariant.{IsValid, is_live, state_of}
use so_rtos.Sched.Invariant.Off.{modify-IsOff, settle-IsValid, heap_remove-IsOff}
use so_rtos.Sched.Invariant.Attach.{Moves, Moves-trans, modify-Moves}
use so_rtos.Sched.Invariant.Unblock.{
  Woken, Readied, end_sleep-Woken, Woken-Readied, unblock_task_locked-Readied,
}

-- What a change of the task's state leaves.
pub record Restated (t : ℕ) (x : TaskState) (base : ℕ) (s s' : Sched) (xs : List ℕ) : Type 0 where
  pub valid : IsValid base s' (erase t xs)
  pub moves : Moves t s s'
  pub state : state_of s' t ≡ x

awake_stays : (s : Sched) (t : ℕ) → is_sleeping (state_of s t) ≡ false → end_sleep s t ≡ s
awake_stays s t h = if_false _ _ h

module _ (base : ℕ) (s : Sched) (xs : List ℕ) (t : ℕ) (v : IsValid base s xs)
    (live : is_live (state_of s t) ≡ true) (busy : (s.task_of t).is_idle ≡ false) where
  -- A ready task leaves the heap.
  heap_remove-Woken : is_ready (state_of s t) ≡ true → Woken t base s (heap_remove s t) xs
  heap_remove-Woken ready = elim (Option-cases (heap_index s t)) [
    | inl e ↦ absurd (ground (arith, v.queued t))
    | inr (i, e) ↦
        let awake : contains xs t ≡ false = ground (arith, v.sleeping t) in
        let (_, r) = heap_remove-IsHeap base s v.heap t i e in
        record {
          off = rw (erase_absent t xs awake) (heap_remove-IsOff base s xs t i v live e awake);
          moves = record {
            frame = ground (arith, r.frame);
            others = λ k ne. ground (arith, r.task k);
          };
          state = ground (arith, r.task t);
          idle = ground (arith, r.task t);
          cpu = ground (arith, r.task t);
          weight = ground (arith, r.task t);
          mask = ground (arith, r.task t);
          flags = ground (arith, r.task t);
        }
  ]

  -- A task whose state changes away from ready leaves its list, whichever it is on.
  leave_lists-Woken :
      (x : TaskState)
      → (is_ready (state_of s t) && is_ready x) ≡ false
      → Woken t base s (leave_lists s t x) xs
  leave_lists-Woken x change = elim (Bool-cases (is_ready (state_of s t))) [
    | inl e ↦
        let w = heap_remove-Woken e in
        let stays : leave_lists s t x ≡ heap_remove s t =
          ap (λ u. end_sleep u t) (if_true (heap_remove s t) s (ground arith))
          ∙ awake_stays (heap_remove s t) t (ground (arith, w.state)) in
        rw stays w
    | inr e ↦
        let stays : leave_lists s t x ≡ end_sleep s t =
          ap (λ u. end_sleep u t) (if_false (heap_remove s t) s (ground arith)) in
        rw stays (end_sleep-Woken base s xs t v live (ground (arith, v.queued t)))
  ]

  module _ (here : leb max_cpus (s.task_of t).cpu_id ≡ false) where
    set_state-ready :
        task_set_state s t TaskState.ready
        ≡ requeue (modify (leave_lists s t TaskState.ready) t (set_state TaskState.ready)) t
    unfolding task_set_state
    set_state-ready = if_false _ _ here

    set_state-other :
        (x : TaskState)
        → is_ready x ≡ false
        → is_zombie x ≡ false
        → task_set_state s t x ≡ modify (leave_lists s t x) t (set_state x)
    unfolding task_set_state
    set_state-other x p q =
        if_false _ _ here
        ∙ (if_false _ _ p
            ∙ if_false _ _ {b = is_zombie x && not (is_zombie (state_of s t))} (ground arith))

    -- In a state that holds the invariant, `task_set_state` to ready of a live task that was not
    -- ready, is not idle and is on a CPU that exists queues it, takes it off the sleep list, touches
    -- no other task but for links, and keeps the invariant.
    pub task_set_state-ready :
        is_ready (state_of s t) ≡ false
        → Restated t TaskState.ready base s (task_set_state s t TaskState.ready) xs
    task_set_state-ready other =
        let r =
          Woken-Readied base s (leave_lists s t TaskState.ready) xs t
            (leave_lists-Woken TaskState.ready (ground arith)) busy in
        rw set_state-ready (record { valid = r.valid; moves = r.moves; state = r.state })

    -- In a state that holds the invariant, `task_set_state` to a state that is not ready, zombie or
    -- sleeping takes a live task that is not idle, on a CPU that exists, off the list it is on,
    -- touches no other task but for links, and keeps the invariant.
    pub task_set_state-Restated :
        (x : TaskState)
        → is_ready x ≡ false
        → is_zombie x ≡ false
        → is_sleeping x ≡ false
        → Restated t x base s (task_set_state s t x) xs
    task_set_state-Restated x p q r =
        let w = leave_lists-Woken x (ground arith) in
        let s' = leave_lists s t x in
        let off =
          modify-IsOff base s' (erase t xs) t false (set_state x) refl (λ _. refl) w.off.own_fits
            w.off in
        rw (set_state-other x p q) (record {
          valid =
              settle-IsValid base (modify s' t (set_state x)) (erase t xs) t false off
                (ground (arith, r)) (ground (arith, p));
          moves = Moves-trans w.moves (modify-Moves s' t (set_state x));
          state = ground arith;
        })

    -- The same changes leave the task on its CPU, idle or not, and with its event wait.
    pub task_set_state-kept :
        (x : TaskState)
        → is_ready x ≡ false
        → is_zombie x ≡ false
        → let s' = task_set_state s t x in
          ((s'.task_of t).is_idle ≡ (s.task_of t).is_idle)
          × ((s'.task_of t).cpu_id ≡ (s.task_of t).cpu_id)
          × ((s'.task_of t).event_mask ≡ (s.task_of t).event_mask)
          × ((s'.task_of t).event_flags ≡ (s.task_of t).event_flags)
    task_set_state-kept x p q =
        let w = leave_lists-Woken x (ground arith) in
        rw (set_state-other x p q) (
          ground (arith, w.idle),
          ground (arith, w.cpu),
          ground (arith, w.mask),
          ground (arith, w.flags),
        )

    -- `task_unblock` on a blocked or sleeping task.
    pub task_unblock-Readied :
        (is_blocked (state_of s t) || is_sleeping (state_of s t)) ≡ true
        → Readied t base s (task_unblock s t) xs
    unfolding task_unblock
    task_unblock-Readied waits =
        rw (unblocks waits) (unblock_task_locked-Readied base s xs t v busy waits)
      where
        unblocks :
            (is_blocked (state_of s t) || is_sleeping (state_of s t)) ≡ true
            → task_unblock s t ≡ unblock_task_locked s t
        unblocks h = if_false _ _ here
