-- ===== src/Semaphore/Tokens.antt =====
-- kernel/src/semaphore.c: what waiting, signalling and broadcasting do to the tokens, the waiters
-- and the scheduler.
use so_rtos.Base.{
  ℕ, zero, suc, ◌≡◌, ◌<◌, ◌≤◌, refl, ◌==◌, arith, true, false, some, List, [], ◌∷◌, Bool-cases, inl,
  inr, ap, sym, subst, ◌∙◌, leb, ltb, ◌+◌, if◌then◌else◌, if_true, if_false,
}
use so_rtos.Chain.{length, contains}
use so_rtos.Task.{TaskState, max_tasks}
use so_rtos.Sched.{Sched}
use so_rtos.Sched.Block.{task_unblock}
use so_rtos.Sched.Wait.{Call}
use so_rtos.Sched.Invariant.{state_of, is_live}
use so_rtos.WaitList.{pop_from_wait_list, unblock_if, prepare_node}
use so_rtos.WaitList.Wake.{
  IsWakeable, Waiting, Woke, Joined, wake_first-Woke, popped-Woke, wait_on-Joined,
  prepare_node-Waiting,
}
use so_rtos.Semaphore.{
  Semaphore, give_token, so_sem_signal, so_sem_wait, sem_wait_from, sem_wait_round,
  so_sem_broadcast, broadcast_loop, broadcast_popped,
}

-- On a well formed list of waiters and with no more tokens than the maximum, `so_sem_signal` wakes the
-- longest waiting task, if one waits, and adds one token, whether a task waits or not, unless the
-- semaphore is full; the bound on the tokens and the scheduler's invariant stand.
pub so_sem_signal-Woke :
    (base : ℕ) (m : Semaphore) (s : Sched) (ys xs : List ℕ)
    → Waiting base s ys m.waiters xs
    → m.count ≤ m.max_count
    → let (m', s') = so_sem_signal m s in
      Woke base s s' ys m'.waiters xs
      × (m'.count ≡ (if m.count == m.max_count then m.count else m.count + 1))
      × (m'.count ≤ m'.max_count)
unfolding so_sem_signal
so_sem_signal-Woke base m s ys xs v bound =
    let woke = wake_first-Woke base s ys m.waiters xs v in
    elim (Bool-cases (ltb m.count m.max_count)) [
      | inl e ↦ rw e (woke, ground arith, ground arith)
      | inr e ↦ rw e (woke, ground arith, ground arith)
    ]

module _ (base c : ℕ) (m : Semaphore) (s : Sched) (ys xs : List ℕ)
    (v : Waiting base s ys m.waiters xs) (out : contains xs c ≡ false)
    (current : s.curr ≡ some c) where
  waits : so_sem_wait m s ≡ sem_wait_round m (prepare_node s c) c
  unfolding so_sem_wait
  waits = ap (sem_wait_from m s) current

  -- With a token and a well formed list of waiters that the current task is not on, `so_sem_wait`
  -- takes one token and returns, and the same tasks wait.
  pub so_sem_wait-takes :
      0 < m.count
      → let (call, (m', s')) = so_sem_wait m s in
        (call ≡ Call.returns 0) × (m'.count + 1 ≡ m.count) × Waiting base s' ys m'.waiters xs
  unfolding sem_wait_round
  so_sem_wait-takes some_token =
      rw (waits ∙ if_true _ _ {b = ltb 0 m.count} (ground arith))
        (refl, omega arith, prepare_node-Waiting base s ys m.waiters xs c v out)

  -- Without a token, and with room on a well formed list of waiters that the current task is not
  -- on, `so_sem_wait` of a live task that is not idle blocks it at the end of the list and yields;
  -- no other task's state changes.
  pub so_sem_wait-Joined :
      m.count ≡ 0
      → length xs < max_tasks
      → is_live (state_of s c) ≡ true
      → IsWakeable s c
      → let (call, (m', s')) = so_sem_wait m s in
        (call ≡ Call.yields) × (m'.count ≡ 0) × Joined base c (prepare_node s c) s' ys m'.waiters xs
  unfolding sem_wait_round
  so_sem_wait-Joined no_token room live wakeable =
      rw (waits ∙ if_false _ _ {b = ltb 0 m.count} (ground arith)) (
        refl,
        no_token,
        wait_on-Joined base (prepare_node s c) ys m.waiters xs c
            (prepare_node-Waiting base s ys m.waiters xs c v out) out room (ground arith) live
            wakeable,
      )

-- What a broadcast leaves: nobody waits, and all that did are ready.
pub record Emptied (base : ℕ) (m m' : Semaphore) (s s' : Sched) (ys xs : List ℕ) : Type 0 where
  pub still : Waiting base s' ys m'.waiters []
  pub woken : (t : ℕ) → contains xs t ≡ true → state_of s' t ≡ TaskState.ready
  pub others : (t : ℕ) → contains xs t ≡ false → state_of s' t ≡ state_of s t
  pub bound : m'.max_count ≡ m.max_count
  pub count :
      m'.count
      ≡ (if leb (m.count + length xs) m.max_count then m.count + length xs else m.max_count)

give_token-count :
    (m : Semaphore) (n : ℕ)
    → m.count ≤ m.max_count
    → let c = (give_token m).count in
      (if leb (c + n) m.max_count then c + n else m.max_count)
      ≡ (if leb (m.count + suc n) m.max_count then m.count + suc n else m.max_count)
give_token-count m n bound = ground arith

give_token-max : (m : Semaphore) → (give_token m).max_count ≡ m.max_count
give_token-max m = ground arith

give_token-bound :
    (m : Semaphore) → m.count ≤ m.max_count → (give_token m).count ≤ (give_token m).max_count
give_token-bound m bound = ground arith

give_token-waiters : (m : Semaphore) → (give_token m).waiters ≡ m.waiters
give_token-waiters m = ground arith

broadcast_loop-Emptied :
    (base fuel : ℕ) (m : Semaphore) (s : Sched) (ys xs : List ℕ)
    → Waiting base s ys m.waiters xs
    → m.count ≤ m.max_count
    → length xs < fuel
    → let (m', s') = broadcast_loop fuel m s in Emptied base m m' s s' ys xs
unfolding broadcast_loop broadcast_popped unblock_if
broadcast_loop-Emptied base zero m s ys xs v bound f = absurd (omega arith)
broadcast_loop-Emptied base (suc fuel) m s ys [] v bound f =
    let (popped, woke) = popped-Woke base s ys m.waiters [] v in
    let w = (pop_from_wait_list s.nodes m.waiters).1 in
    rw (ap (λ p. broadcast_popped (broadcast_loop fuel) m s (p, w)) popped) (record {
      still = woke.still;
      woken = λ t h. cc;
      others = λ t h. refl;
      bound = refl;
      count = ground arith;
    })
broadcast_loop-Emptied base (suc fuel) m s ys (x ∷ xs) v bound f =
    let (popped, woke) = popped-Woke base s ys m.waiters (x ∷ xs) v in
    let w = (pop_from_wait_list s.nodes m.waiters).1 in
    let m₁ = record m { waiters = w } in
    let s₁ = task_unblock s x in
    let r =
      broadcast_loop-Emptied base fuel (give_token m₁) s₁ ys xs
        (subst (λ q. Waiting base s₁ ys q xs) (sym (give_token-waiters m₁)) woke.still)
        (give_token-bound m₁ bound) (omega arith) in
    rw (ap (λ p. broadcast_popped (broadcast_loop fuel) m s (p, w)) popped) (record {
      still = r.still;
      woken = λ t h. elim (Bool-cases (contains xs t)) [
        | inl e ↦ r.woken t e
        | inr e ↦ let at : x ≡ t = ground arith in r.others t e ∙ woke.first t (ap some at)
      ];
      others = λ t h. r.others t (ground arith) ∙ woke.others t (λ q. ground (arith, q));
      bound = r.bound ∙ give_token-max m₁;
      count = r.count ∙ (rw (give_token-max m₁) (give_token-count m₁ (length xs) bound));
    })

-- On a well formed list of waiters and with no more tokens than the maximum, `so_sem_broadcast` ends with nobody waiting and every waiter
-- ready, adds a token for each of them up to the maximum, changes the state of no other task, and
-- keeps the scheduler's invariant.
pub so_sem_broadcast-Emptied :
    (base : ℕ) (m : Semaphore) (s : Sched) (ys xs : List ℕ)
    → Waiting base s ys m.waiters xs
    → m.count ≤ m.max_count
    → let (m', s') = so_sem_broadcast m s in Emptied base m m' s s' ys xs
unfolding so_sem_broadcast
so_sem_broadcast-Emptied base m s ys xs v bound =
    broadcast_loop-Emptied base (suc max_tasks) m s ys xs v bound (omega (arith, v.list.short))
