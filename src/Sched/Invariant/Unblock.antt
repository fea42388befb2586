-- ===== src/Sched/Invariant/Unblock.antt =====
-- `_unblock_task_locked` and `_wake_sleeping_task` keep the invariant and touch no other task.
use so_rtos.Base.{ℕ, ◌≡◌, true, false, ◌||◌, List, none, arith, Bool-cases, inl, inr, refl}
use so_rtos.Chain.{contains, erase, erase_absent}
use so_rtos.Task.{TaskState, is_sleeping, is_blocked}
use so_rtos.Sched.{Sched, modify}
use so_rtos.Sched.Heap.Index.{heap_index}
use so_rtos.Sched.Sleep.{
  end_sleep, remove_from_sleep_list, set_state, set_sleep_until, unblock_task_locked,
  wake_sleeping_task, requeue,
}
use so_rtos.Sched.Sleep.Remove.{remove_from_sleep_list-IsSleepList}
use so_rtos.Sched.Invariant.{IsValid, IsOff, is_live, state_of}
use so_rtos.Sched.Invariant.Off.{IsOff-of_valid, remove_from_sleep_list-IsOff, modify-IsOff}
use so_rtos.Sched.Invariant.Attach.{Moves, Moves-trans, modify-Moves, requeue-IsValid}

-- What is left when the task `t` has been taken off the sleep list.
pub record Woken (t base : ℕ) (s s' : Sched) (xs : List ℕ) : Type 0 where
  pub off : IsOff false t base s' (erase t xs)
  pub moves : Moves t s s'
  pub state : state_of s' t ≡ state_of s t
  pub idle : (s'.task_of t).is_idle ≡ (s.task_of t).is_idle
  pub cpu : (s'.task_of t).cpu_id ≡ (s.task_of t).cpu_id
  pub weight : (s'.task_of t).weight ≡ (s.task_of t).weight
  pub mask : (s'.task_of t).event_mask ≡ (s.task_of t).event_mask
  pub flags : (s'.task_of t).event_flags ≡ (s.task_of t).event_flags

module _ (base : ℕ) (s : Sched) (xs : List ℕ) (t : ℕ) (v : IsValid base s xs) where
  pub remove_from_sleep_list-Woken :
      is_live (state_of s t) ≡ true
      → heap_index s t ≡ none
      → Woken t base s (remove_from_sleep_list s t) xs
  remove_from_sleep_list-Woken live out =
      let (_, r) = remove_from_sleep_list-IsSleepList s xs t v.sleep in
      record {
        off = remove_from_sleep_list-IsOff base s xs t v live out;
        moves = record {
          frame = ground (arith, r.frame);
          others = λ k ne. ground (arith, r.task k);
        };
        state = ground (arith, r.task t);
        idle = ground (arith, r.task t);
        cpu = ground (arith, r.task t);
        weight = ground (arith, r.task t);
        mask = ground (arith, r.task t);
        flags = ground (arith, r.task t);
      }

  -- `end_sleep`, on a live task that is not queued.
  pub end_sleep-Woken :
      is_live (state_of s t) ≡ true → heap_index s t ≡ none → Woken t base s (end_sleep s t) xs
  end_sleep-Woken live out = elim (Bool-cases (is_sleeping (state_of s t))) [
    | inl e ↦
        let w = remove_from_sleep_list-Woken live out in
        let s' = remove_from_sleep_list s t in
        rw (e, end_sleep)
          (record {
            off =
                modify-IsOff base s' (erase t xs) t false (set_sleep_until 0) refl (λ _. refl)
                  w.off.own_fits w.off;
            moves = Moves-trans w.moves (modify-Moves s' t (set_sleep_until 0));
            state = ground (arith, w.state);
            idle = ground (arith, w.idle);
            cpu = ground (arith, w.cpu);
            weight = ground (arith, w.weight);
            mask = ground (arith, w.mask);
            flags = ground (arith, w.flags);
          })
    | inr e ↦
        let awake : contains xs t ≡ false = ground (arith, v.sleeping t) in
        rw (e, end_sleep)
          (record {
            off = rw (erase_absent t xs awake) (IsOff-of_valid base s xs t v live out awake);
            moves = record { frame = refl; others = λ k ne. refl };
            state = refl;
            idle = refl;
            cpu = refl;
            weight = refl;
            mask = refl;
            flags = refl;
          })
  ]

-- What a task's return to the ready queue leaves.
pub record Readied (t base : ℕ) (s s' : Sched) (xs : List ℕ) : Type 0 where
  pub valid : IsValid base s' (erase t xs)
  pub moves : Moves t s s'
  pub state : state_of s' t ≡ TaskState.ready
  pub weight : (s'.task_of t).weight ≡ (s.task_of t).weight
  pub mask : (s'.task_of t).event_mask ≡ (s.task_of t).event_mask
  pub flags : (s'.task_of t).event_flags ≡ (s.task_of t).event_flags

pub Woken-Readied :
    (base : ℕ) (s s' : Sched) (xs : List ℕ) (t : ℕ)
    → Woken t base s s' xs
    → (s.task_of t).is_idle ≡ false
    → Readied t base s (requeue (modify s' t (set_state TaskState.ready)) t) xs
Woken-Readied base s s' xs t w busy =
    let s″ = modify s' t (set_state TaskState.ready) in
    let off =
      modify-IsOff base s' (erase t xs) t false (set_state TaskState.ready) refl (λ _. refl)
        w.off.own_fits w.off in
    let (valid, moves, state, weight, mask, flags) =
      requeue-IsValid base s″ (erase t xs) t off (ground arith) (ground (arith, w.idle)) in
    record {
      valid = valid;
      moves =
          Moves-trans w.moves (Moves-trans (modify-Moves s' t (set_state TaskState.ready)) moves);
      state = ground (arith, state);
      weight = ground (arith, weight, w.weight);
      mask = ground (arith, mask, w.mask);
      flags = ground (arith, flags, w.flags);
    }

module _ (base : ℕ) (s : Sched) (xs : List ℕ) (t : ℕ) (v : IsValid base s xs)
    (busy : (s.task_of t).is_idle ≡ false) where
  -- In a state that holds the invariant, `_unblock_task_locked` of a blocked or sleeping task that
  -- is not idle makes it ready, takes it off the sleep list, touches no other task but for links,
  -- and keeps the invariant.
  pub unblock_task_locked-Readied :
      (is_blocked (state_of s t) || is_sleeping (state_of s t)) ≡ true
      → Readied t base s (unblock_task_locked s t) xs
  unfolding unblock_task_locked
  unblock_task_locked-Readied waits =
      rw (waits, unblock_task_locked)
        (Woken-Readied base s (end_sleep s t) xs t
          (end_sleep-Woken base s xs t v (ground arith) (ground (arith, v.queued t))) busy)

  -- Any other task is left alone.
  pub unblock_task_locked_id :
      (is_blocked (state_of s t) || is_sleeping (state_of s t)) ≡ false
      → unblock_task_locked s t ≡ s
  unfolding unblock_task_locked
  unblock_task_locked_id stays = rw (stays, unblock_task_locked)

  pub unblock_task_locked-IsValid : IsValid base (unblock_task_locked s t) (erase t xs)
  unblock_task_locked-IsValid =
      elim (Bool-cases (is_blocked (state_of s t) || is_sleeping (state_of s t))) [
        | inl e ↦ (unblock_task_locked-Readied e).valid
        | inr e ↦ rw (unblock_task_locked_id e, erase_absent t xs (ground (arith, v.sleeping t))) v
      ]

  -- The head of the sleep list, when `_process_sleep_list` wakes it.
  pub wake_removed-Readied :
      is_sleeping (state_of s t) ≡ true
      → Readied t base s (wake_sleeping_task (remove_from_sleep_list s t) t) xs
  unfolding wake_sleeping_task
  wake_removed-Readied asleep =
      Woken-Readied base s (remove_from_sleep_list s t) xs t
        (remove_from_sleep_list-Woken base s xs t v (ground arith) (ground (arith, v.queued t)))
        busy
