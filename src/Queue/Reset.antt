-- ===== src/Queue/Reset.antt =====
-- kernel/src/queue.c: `queue_reset` wakes every sender.
use so_rtos.Base.{
  ℕ, zero, suc, ◌≡◌, ◌≤◌, refl, arith, true, false, some, List, [], ◌∷◌, Bool-cases, inl, inr, ap,
  ◌∙◌, is_null, if_true, if_false,
}
use so_rtos.Chain.{length, contains}
use so_rtos.Task.{TaskState, max_tasks}
use so_rtos.Sched.{Sched}
use so_rtos.Sched.Invariant.{state_of}
use so_rtos.WaitList.{Waiters, wake_first}
use so_rtos.WaitList.Wake.{Waiting, wake_first-Woke}
use so_rtos.Queue.{Queue, queue_reset, wake_up_to}
use so_rtos.Queue.Ring.{contents, IsRing}

-- All of `xs` are ready, and nobody waits any more.
pub record AllWoke (base : ℕ) (s s' : Sched) (ys : List ℕ) (w' : Waiters) (xs : List ℕ)
    : Type 0 where
  pub still : Waiting base s' ys w' []
  pub woken : (t : ℕ) → contains xs t ≡ true → state_of s' t ≡ TaskState.ready
  pub others : (t : ℕ) → contains xs t ≡ false → state_of s' t ≡ state_of s t

wake_up_to-AllWoke :
    (base fuel : ℕ) (s : Sched) (ys : List ℕ) (w : Waiters) (xs : List ℕ)
    → Waiting base s ys w xs
    → length xs ≤ fuel
    → let (w', s') = wake_up_to fuel w s in AllWoke base s s' ys w' xs
unfolding wake_up_to
wake_up_to-AllWoke base zero s ys w [] v f = record {
  still = v;
  woken = λ t h. cc;
  others = λ t h. refl;
}
wake_up_to-AllWoke base zero s ys w (x ∷ xs) v f = absurd (omega arith)
wake_up_to-AllWoke base (suc fuel) s ys w [] v f =
    rw (if_true _ _ {b = is_null w.head} (ap is_null v.list.chain))
      (record { still = v; woken = λ t h. cc; others = λ t h. refl })
wake_up_to-AllWoke base (suc fuel) s ys w (x ∷ xs) v f =
    let woke = wake_first-Woke base s ys w (x ∷ xs) v in
    let r =
      wake_up_to-AllWoke base fuel (wake_first w s).1 ys (wake_first w s).0 xs woke.still
        (omega arith) in
    rw (if_false _ _ {b = is_null w.head} (ap is_null v.list.chain.0)) (record {
      still = r.still;
      woken = λ t h. elim (Bool-cases (contains xs t)) [
        | inl e ↦ r.woken t e
        | inr e ↦ let at : x ≡ t = ground arith in r.others t e ∙ woke.first t (ap some at)
      ];
      others = λ t h. r.others t (ground arith) ∙ woke.others t (λ q. ground (arith, q));
    })

-- `queue_reset` on a well formed queue leaves an empty, well formed queue, makes all its
-- senders ready, changes the state of no other task, and keeps the scheduler's invariant, if the
-- list of senders is well formed.
pub queue_reset-AllWoke :
    (base : ℕ) (q : Queue) (s : Sched) (ys xs : List ℕ)
    → IsRing q
    → Waiting base s ys q.tx_wait xs
    → let (q', s') = queue_reset q s in
      (contents q' ≡ []) × IsRing q' × AllWoke base s s' ys q'.tx_wait xs
unfolding queue_reset
queue_reset-AllWoke base q s ys xs ring v = (
  refl,
  record { head = omega (arith, ring.head); tail = refl; count = omega arith; size = ring.size },
  wake_up_to-AllWoke base max_tasks s ys q.tx_wait xs v v.list.short,
)
