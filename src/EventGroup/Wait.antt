-- ===== src/EventGroup/Wait.antt =====
-- kernel/src/event_group.c: waiting for bits, with and without a timeout.
use so_rtos.Base.{
  ℕ, ◌≡◌, ◌<◌, refl, ◌==◌, arith, true, false, some, List, [], ◌∷◌, ◌++◌, Bool-cases, inl, inr, ap,
  ◌∙◌, if◌then◌else◌, if_true, if_false, uint32_max, add32, ◌%◌, ◌^◌,
}
use so_rtos.Chain.{length, contains}
use so_rtos.Task.{TaskState, max_tasks}
use so_rtos.Sched.{Sched}
use so_rtos.Sched.Wait.{Call, fall_asleep}
use so_rtos.Sched.Invariant.{is_live, state_of}
use so_rtos.Sched.Invariant.Sleeping.{sleeps}
use so_rtos.WaitList.Order.{IsWaitList, add_to_wait_list-IsWaitList}
use so_rtos.WaitList.Wake.{IsWakeable}
use so_rtos.EventGroup.{
  EventGroup, is_satisfied, take_bits, wait_bits_from, join_waiters, block_on, after_sleep,
  event_group_wait_bits,
}
use so_rtos.EventGroup.Pending.{Pending}
use so_rtos.EventGroup.Join.{
  asking, halted, joined, asking-Pending, Queued, halted-Queued, asleep-Queued, halted-curr,
  asked-Queued,
}

module _ (base c : ℕ) (eg : EventGroup) (s : Sched) (ys xs : List ℕ)
    (v : Pending base s ys eg.waiters xs) (out : contains xs c ≡ false) where
  module _ (bits_to_wait flags timeout_ticks now : ℕ) (current : s.curr ≡ some c) where
    -- When the bits are there, `event_group_wait_bits` of a task that is not on the list returns
    -- them, clears them if that is asked for, and leaves the waiters and every task's state as they
    -- are.
    pub event_group_wait_bits-takes :
        is_satisfied eg.bits bits_to_wait flags ≡ true
        → let (call, (eg', s')) = event_group_wait_bits eg s bits_to_wait flags timeout_ticks now in
          (call ≡ Call.returns eg.bits)
          × (eg'.bits ≡ take_bits eg.bits bits_to_wait flags)
          × Pending base s' ys eg'.waiters xs
          × ((t : ℕ) → state_of s' t ≡ state_of s t)
    unfolding event_group_wait_bits
    event_group_wait_bits-takes e =
        rw (ap (wait_bits_from eg s bits_to_wait flags timeout_ticks now) current ∙ if_true _ _ e) (
          refl,
          refl,
          asking-Pending base s ys eg.waiters xs c bits_to_wait flags v out,
          λ t. ground arith,
        )

    joins :
        is_satisfied eg.bits bits_to_wait flags ≡ false
        → event_group_wait_bits eg s bits_to_wait flags timeout_ticks now
          ≡ join_waiters eg (asking s c bits_to_wait flags) c timeout_ticks now
    unfolding event_group_wait_bits
    joins e = ap (wait_bits_from eg s bits_to_wait flags timeout_ticks now) current ∙ if_false _ _ e

    -- When the bits are not there, `event_group_wait_bits` with a timeout other than 0, by a live
    -- task that is not idle and not on the list, which has room, puts the task behind the other
    -- waiters with its wish, blocked or, if the timeout has an end, asleep, and yields; the bits
    -- and the other tasks' states and wishes stay, and so does the scheduler's invariant.
    pub event_group_wait_bits-Queued :
        is_satisfied eg.bits bits_to_wait flags ≡ false
        → (timeout_ticks == 0) ≡ false
        → length xs < max_tasks
        → is_live (state_of s c) ≡ true
        → IsWakeable s c
        → let (call, (eg', s')) = event_group_wait_bits eg s bits_to_wait flags timeout_ticks now in
          (call ≡ Call.yields)
          × (eg'.bits ≡ eg.bits)
          × Queued base c
              (if timeout_ticks == uint32_max then TaskState.blocked else TaskState.sleeping)
              (record { mask = bits_to_wait; flags = flags })
              s
              s'
              eg'
              xs
    unfolding join_waiters block_on
    event_group_wait_bits-Queued e some_ticks room live wakeable =
        let u = asking s c bits_to_wait flags in
        let v' = asking-Pending base s ys eg.waiters xs c bits_to_wait flags v out in
        let own : (u.nodes c).task ≡ c = ground arith in
        let live' : is_live (state_of u c) ≡ true = ground (arith, live) in
        let can : IsWakeable u c = (ground (arith, wakeable.0), ground (arith, wakeable.1)) in
        let u' = halted eg u c in
        let eg' = joined eg u c in
        elim (Bool-cases (timeout_ticks == uint32_max)) [
          | inl forever ↦ rw (joins e ∙ (if_false _ _ some_ticks ∙ if_true _ _ forever)) (
            refl,
            refl,
            rw forever (
                asked-Queued base c bits_to_wait flags _ s u' eg' xs
                  (halted-Queued base c eg u ys xs v' out room own live' can)),
          )
          | inr timed ↦
              let (at, busy) = halted-curr base c eg u ys xs v' out room own live' can current in
              let until = add32 (now % 2 ^ 32) timeout_ticks in
              let (q, _) = asleep-Queued base c eg u ys xs v' out room own live' can until in
              rw
                (joins e
                  ∙ (if_false _ _ some_ticks
                      ∙ (if_false _ _ timed
                          ∙ ap (after_sleep eg' c)
                              (sleeps u' c timeout_ticks now at busy some_ticks))))
                (
                  refl,
                  refl,
                  rw timed (
                      asked-Queued base c bits_to_wait flags _ s (fall_asleep u' c until) eg' xs q),
                )
        ]

    -- With a timeout of 0 and without the bits, `event_group_wait_bits` returns the bits, and
    -- leaves the node of the caller, which goes on running, on the list of waiters, if that is well
    -- formed, has room and does not hold the caller yet.
    pub event_group_wait_bits-abandons :
        is_satisfied eg.bits bits_to_wait flags ≡ false
        → (timeout_ticks == 0) ≡ true
        → length xs < max_tasks
        → let (call, (eg', s')) = event_group_wait_bits eg s bits_to_wait flags timeout_ticks now in
          (call ≡ Call.returns eg.bits)
          × IsWaitList s'.nodes eg'.waiters (xs ++ c ∷ [])
          × (state_of s' c ≡ state_of s c)
    unfolding join_waiters
    event_group_wait_bits-abandons e no_ticks room =
        let v' = asking-Pending base s ys eg.waiters xs c bits_to_wait flags v out in
        let u = asking s c bits_to_wait flags in
        rw (joins e ∙ if_true _ _ no_ticks) (
          refl,
          add_to_wait_list-IsWaitList u.nodes eg.waiters xs c v'.list out (ground arith) room,
          ground arith,
        )
