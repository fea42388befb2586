-- ===== src/Mutex/HandOver.antt =====
-- kernel/src/mutex.c: locking and unlocking, with the hand-over to the longest waiting task.
use so_rtos.Base.{
  ℕ, ◌≡◌, ◌≢◌, ◌<◌, ◌≤◌, refl, ◌==◌, arith, true, false, Option, none, some, List, [], ◌∷◌, ◌++◌,
  ◌⊎◌, inl, inr, ap, subst, ◌∙◌, if◌then◌else◌, if_true, if_false,
}
use so_rtos.Chain.{length, contains, erase, head?}
use so_rtos.Task.{TaskState, max_tasks}
use so_rtos.Sched.{Sched}
use so_rtos.Sched.Block.{task_unblock}
use so_rtos.Sched.Wait.{Call}
use so_rtos.Sched.Invariant.{state_of, is_live}
use so_rtos.WaitList.{pop_from_wait_list, unblock_if, prepare_node}
use so_rtos.WaitList.Order.{drop_first, pop_from_wait_list-IsWaitList}
use so_rtos.WaitList.Wake.{IsWakeable, Waiting, popped-Woke, wait_on-Joined, prepare_node-Waiting}
use so_rtos.Mutex.{
  Mutex, get_max_waiter_weight, boost_to, lock_round, mutex_lock_from, so_mutex_lock, is_owner,
  restore_weight, hand_over, so_mutex_unlock,
}
use so_rtos.Mutex.Owner.{weight_of, max_weight_from-max, set_weight-Waiting, boost_to-Boosted}

module _ (base c : ℕ) (m : Mutex) (s : Sched) (ys xs : List ℕ) (v : Waiting base s ys m.waiters xs)
    (out : contains xs c ≡ false) (current : s.curr ≡ some c) where
  locks : {p : Option ℕ} → m.owner ≡ p → so_mutex_lock m s ≡ lock_round m (prepare_node s c) c p
  unfolding so_mutex_lock mutex_lock_from
  locks e = ap (mutex_lock_from m s) current ∙ ap (lock_round m (prepare_node s c) c) e

  -- `so_mutex_lock` of a free mutex makes the current task the owner and returns, and of a mutex
  -- that the current task owns returns with nothing changed but the task's own node; the same
  -- tasks wait, if their list was well formed without the current task.
  pub so_mutex_lock-takes :
      ((m.owner ≡ none) ⊎ (m.owner ≡ some c))
      → let (call, (m', s')) = so_mutex_lock m s in
        (call ≡ Call.returns 0) × (m'.owner ≡ some c) × Waiting base s' ys m'.waiters xs
  unfolding lock_round
  so_mutex_lock-takes (inl e) =
      rw (locks e) (refl, refl, prepare_node-Waiting base s ys m.waiters xs c v out)
  so_mutex_lock-takes (inr e) =
      rw (locks e ∙ if_true _ _ {b = c == c} (ground arith))
        (refl, e, prepare_node-Waiting base s ys m.waiters xs c v out)

  -- When the list of waiters is well formed and the current task is not on it, `so_mutex_lock` of a
  -- mutex that another task owns blocks the current task, if it is live, not idle and there is room,
  -- at the end of the list, leaves the owner, whose weight is then at least that of the current task,
  -- and yields; no other task's state changes, and the scheduler's invariant stands.
  pub so_mutex_lock-Joined :
      (o : ℕ)
      → m.owner ≡ some o
      → o ≢ c
      → length xs < max_tasks
      → is_live (state_of s c) ≡ true
      → IsWakeable s c
      → let (call, (m', s')) = so_mutex_lock m s in
        (call ≡ Call.yields)
        × (m'.owner ≡ some o)
        × Waiting base s' (erase c ys) m'.waiters (xs ++ c ∷ [])
        × ((t : ℕ) → t ≢ c → state_of s' t ≡ state_of s t)
        × (weight_of s c ≤ weight_of s' o)
  unfolding lock_round
  so_mutex_lock-Joined o e ne room live wakeable =
      let s₁ = prepare_node s c in
      let b =
        boost_to-Boosted base s₁ ys m.waiters xs o (weight_of s c)
          (prepare_node-Waiting base s ys m.waiters xs c v out) in
      let s₂ = boost_to s₁ o (weight_of s c) in
      let own : (s₂.nodes c).task ≡ c = ap (λ n. (n c).task) b.nodes ∙ ground arith in
      let j =
        wait_on-Joined base s₂ ys m.waiters xs c b.still out room own
          (ap is_live (b.states c) ∙ live) (b.wakes c wakeable) in
      rw (locks e ∙ if_false _ _ {b = o == c} (ground arith))
        (refl, e, j.still, λ t n. j.others t n ∙ b.states t, omega (arith, j.weights o ne, b.own))

module _ (base c : ℕ) (m : Mutex) (s : Sched) (ys : List ℕ) (current : s.curr ≡ some c) where
  unlocks :
      m.owner ≡ some c
      → so_mutex_unlock m s
        ≡ hand_over m (restore_weight s (some c)) (pop_from_wait_list s.nodes m.waiters)
  unfolding so_mutex_unlock is_owner restore_weight
  unlocks e =
      ap (λ p. by_owner p s.curr) e
      ∙ (ap (by_owner (some c)) current ∙ if_true _ _ {b = c == c} (ground arith))
    where
      by_owner : Option ℕ → Option ℕ → Mutex × Sched
      by_owner p q =
          if is_owner p q
          then hand_over m (restore_weight s q)
              (pop_from_wait_list (restore_weight s q).nodes m.waiters)
          else (m, s)

  -- On a well formed list of waiters, one call of `so_mutex_unlock` by the owner, however often it
  -- has locked the mutex, makes the longest waiting task the owner and ready, or leaves the mutex
  -- free if nobody waits; the other waiters still wait, none of them has a greater weight than the
  -- new owner, no other task's state changes, and the scheduler's invariant stands.
  pub so_mutex_unlock-hands_over :
      (xs : List ℕ)
      → Waiting base s ys m.waiters xs
      → m.owner ≡ some c
      → let (m', s') = so_mutex_unlock m s in
        (m'.owner ≡ head? xs)
        × Waiting base s' ys m'.waiters (drop_first xs)
        × ((t : ℕ) → head? xs ≡ some t → state_of s' t ≡ TaskState.ready)
        × ((t : ℕ) → (head? xs ≡ some t → ⊥) → state_of s' t ≡ state_of s t)
        × ((n t : ℕ)
            → head? xs ≡ some n
            → contains (drop_first xs) t ≡ true
            → weight_of s' t ≤ weight_of s' n)
  unfolding hand_over restore_weight get_max_waiter_weight unblock_if
  so_mutex_unlock-hands_over [] v e =
      let s₁ = restore_weight s (some c) in
      let v₁ = set_weight-Waiting base s ys m.waiters [] c (s.task_of c).base_weight v in
      let (popped, woke) = popped-Woke base s₁ ys m.waiters [] v₁ in
      rw (unlocks e ∙ ap (λ p. hand_over m s₁ (p, (pop_from_wait_list s.nodes m.waiters).1)) popped)
        (refl, woke.still, λ t h. cc, λ t h. ground arith, λ n t h. cc)
  so_mutex_unlock-hands_over (x ∷ xs) v e =
      let s₁ = restore_weight s (some c) in
      let v₁ = set_weight-Waiting base s ys m.waiters (x ∷ xs) c (s.task_of c).base_weight v in
      let (popped, _) = popped-Woke base s₁ ys m.waiters (x ∷ xs) v₁ in
      let w' = (pop_from_wait_list s.nodes m.waiters).1 in
      let k = get_max_waiter_weight s₁ w'.head in
      let (_, list) = pop_from_wait_list-IsWaitList s.nodes m.waiters (x ∷ xs) v.list in
      let (_, heaviest) =
        max_weight_from-max max_tasks s₁ 0 w'.head xs list.chain list.owned list.short in
      let b = boost_to-Boosted base s₁ ys m.waiters (x ∷ xs) x k v₁ in
      let s₂ = boost_to s₁ x k in
      let (_, woke) = popped-Woke base s₂ ys m.waiters (x ∷ xs) b.still in
      let s' = task_unblock s₂ x in
      rw (unlocks e ∙ ap (λ p. hand_over m s₁ (p, w')) popped) (
        refl,
        subst (λ n. Waiting base s' ys (pop_from_wait_list n m.waiters).1 xs) b.nodes woke.still,
        woke.first,
        λ t h. woke.others t h ∙ (b.states t ∙ ground arith),
        λ n t h among.
            let at : x ≡ n = ground arith in
            let apart : t ≢ x = λ q. ground (arith, v.list.distinct.0, ap (contains xs) q) in
            subst (λ j. weight_of s' t ≤ weight_of s' j) at
              (omega
                (arith, woke.weights t, woke.weights x, b.others t apart, b.own, heaviest t among)),
      )
