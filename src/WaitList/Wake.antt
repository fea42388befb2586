-- ===== src/WaitList/Wake.antt =====
-- kernel/src/queue.c, kernel/src/mutex.c and kernel/src/semaphore.c: waking the first waiter, and
-- waiting, with what they do to the scheduler.
use so_rtos.Base.{
  ℕ, ◌≡◌, ◌≢◌, ◌<◌, refl, ◌==◌, arith, true, false, Option, none, some, List, [], ◌∷◌, ◌++◌,
  Bool-cases, inl, inr, ap, sym, subst, ◌∙◌, leb,
}
use so_rtos.Chain.{IsChain-agree, length, contains, erase, erase_absent, head?}
use so_rtos.Task.{WaitNode, TaskState, max_tasks, max_cpus, is_blocked}
use so_rtos.Sched.{Sched}
use so_rtos.Sched.Block.{task_unblock, task_set_state}
use so_rtos.Sched.Invariant.{IsValid, state_of, is_live, vruntime_or_zero}
use so_rtos.Sched.Heap.Swap.{Fits}
use so_rtos.Sched.Invariant.Off.{IsHeap-agree, IsSleepList-agree}
use so_rtos.Sched.Invariant.State.{
  task_unblock-Readied, task_set_state-Restated, task_set_state-kept,
}
use so_rtos.WaitList.{
  prepare_node, next_in, Waiters, pop_from_wait_list, unblock_if, wake_first, wait_on,
  add_to_wait_list,
}
use so_rtos.WaitList.Order.{
  IsWaitList, drop_first, pop_from_wait_list-IsWaitList, add_to_wait_list-IsWaitList,
  contains-append_one,
}

-- A task that may be unblocked: on the CPU there is, and not idle.
abbrev pub IsWakeable : Sched → ℕ → Type 0
IsWakeable s t = ((s.task_of t).is_idle ≡ false) × (leb max_cpus (s.task_of t).cpu_id ≡ false)

-- The scheduler is valid, the list holds exactly the nodes `xs`, and their tasks are blocked.
pub record Waiting (base : ℕ) (s : Sched) (ys : List ℕ) (w : Waiters) (xs : List ℕ) : Type 0 where
  pub valid : IsValid base s ys
  pub list : IsWaitList s.nodes w xs
  pub blocked : (t : ℕ) → contains xs t ≡ true → is_blocked (state_of s t) ≡ true
  pub wakeable : (t : ℕ) → contains xs t ≡ true → IsWakeable s t

-- What waking the first of `xs` leaves: it is ready, the others still wait.
pub record Woke (base : ℕ) (s s' : Sched) (ys : List ℕ) (w' : Waiters) (xs : List ℕ) : Type 0 where
  pub still : Waiting base s' ys w' (drop_first xs)
  pub first : (t : ℕ) → head? xs ≡ some t → state_of s' t ≡ TaskState.ready
  pub others : (t : ℕ) → (head? xs ≡ some t → ⊥) → state_of s' t ≡ state_of s t
  pub weights : (t : ℕ) → (s'.task_of t).weight ≡ (s.task_of t).weight

wake_first-eq :
    (w : Waiters) (s : Sched) {p : Option ℕ}
    → (pop_from_wait_list s.nodes w).0 ≡ p
    → wake_first w s ≡ ((pop_from_wait_list s.nodes w).1, unblock_if s p)
unfolding wake_first
wake_first-eq w s e = ap (λ q. ((pop_from_wait_list s.nodes w).1, unblock_if s q)) e

-- On a well formed wait list of blocked tasks, waking takes the longest waiting task off it and
-- makes it ready, leaves the state of every other task, and keeps the scheduler's invariant; with
-- nobody waiting it changes no state.
pub wake_first-Woke :
    (base : ℕ) (s : Sched) (ys : List ℕ) (w : Waiters) (xs : List ℕ)
    → Waiting base s ys w xs
    → let (w', s') = wake_first w s in Woke base s s' ys w' xs
unfolding unblock_if
wake_first-Woke base s ys w [] v =
    let (popped, list) = pop_from_wait_list-IsWaitList s.nodes w [] v.list in
    rw (wake_first-eq w s popped) (record {
      still = record { valid = v.valid; list = list; blocked = v.blocked; wakeable = v.wakeable };
      first = λ t h. cc;
      others = λ t h. refl;
      weights = λ t. refl;
    })
wake_first-Woke base s ys w (x ∷ xs) v =
    let (popped, list) = pop_from_wait_list-IsWaitList s.nodes w (x ∷ xs) v.list in
    let b = v.blocked x (ground arith) in
    let (busy, here) = v.wakeable x (ground arith) in
    let r =
      task_unblock-Readied base s ys x v.valid (ground (arith, b)) busy here (ground (arith, b)) in
    let awake : contains ys x ≡ false = ground (arith, v.valid.sleeping x, b) in
    let apart : (t : ℕ) → contains xs t ≡ true → t ≢ x =
      λ t m q. ground (arith, v.list.distinct.0, ap (contains xs) q) in
    rw (wake_first-eq w s popped) (record {
      still = record {
        valid = subst (IsValid base (task_unblock s x)) (erase_absent x ys awake) r.valid;
        list =
            subst (λ n. IsWaitList n (pop_from_wait_list s.nodes w).1 xs)
              (sym (ap (λ u. u.nodes) r.moves.frame)) list;
        blocked = λ t m. ground (arith, r.moves.others t (apart t m), v.blocked t);
        wakeable = λ t m. ground (arith, r.moves.others t (apart t m), v.wakeable t);
      };
      first = λ t h. let at : x ≡ t = ground arith in rw (sym at) r.state;
      others = λ t h. ground (arith, r.moves.others t (λ q. h (ap some (sym q))));
      weights = λ t. elim (Bool-cases (t == x)) [
        | inl e ↦ let at : t ≡ x = ground arith in rw at r.weight
        | inr e ↦ ap (λ k. k.weight) (r.moves.others t (λ q. ground arith))
      ];
    })

-- The invariant does not read the wait nodes.
pub nodes-IsValid :
    (base : ℕ) (s : Sched) (ys : List ℕ) (n : ℕ → WaitNode)
    → IsValid base s ys
    → IsValid base (record s { nodes = n }) ys
nodes-IsValid base s ys n v = record {
  heap =
      IsHeap-agree base s (record s { nodes = n }) refl (λ i. refl) (λ k. refl) (λ k q. refl)
        v.heap;
  sleep = IsSleepList-agree s (record s { nodes = n }) ys refl (λ k m. refl) v.sleep;
  pool = v.pool;
  fits = v.fits;
  floor = floor s.curr v.floor;
  queued = v.queued;
  sleeping = v.sleeping;
}
  where
    floor :
        (q : Option ℕ)
        → Fits base (vruntime_or_zero s q)
        → Fits base (vruntime_or_zero (record s { nodes = n }) q)
    floor none h = h
    floor (some c) h = h

-- What waiting leaves: the current task is blocked, and last on the list.
pub record Joined (base c : ℕ) (s s' : Sched) (ys : List ℕ) (w' : Waiters) (xs : List ℕ)
    : Type 0 where
  pub still : Waiting base s' (erase c ys) w' (xs ++ c ∷ [])
  pub others : (t : ℕ) → t ≢ c → state_of s' t ≡ state_of s t
  pub weights : (t : ℕ) → t ≢ c → (s'.task_of t).weight ≡ (s.task_of t).weight

-- On a well formed wait list of blocked tasks, with room, a live task that is not on it and is not
-- idle, whose node is prepared, joins it at the end and is blocked; no other task's state changes,
-- and the scheduler's invariant stands.
pub wait_on-Joined :
    (base : ℕ) (s : Sched) (ys : List ℕ) (w : Waiters) (xs : List ℕ) (c : ℕ)
    → Waiting base s ys w xs
    → contains xs c ≡ false
    → length xs < max_tasks
    → (s.nodes c).task ≡ c
    → is_live (state_of s c) ≡ true
    → IsWakeable s c
    → let (w', s') = wait_on w s c in Joined base c s s' ys w' xs
unfolding wait_on
wait_on-Joined base s ys w xs c v out room own live (busy, here) =
    let list = add_to_wait_list-IsWaitList s.nodes w xs c v.list out own room in
    let n = (add_to_wait_list s.nodes w c).0 in
    let u = record s { nodes = n } in
    let r =
      task_set_state-Restated base u ys c (nodes-IsValid base s ys n v.valid) live busy here
        TaskState.blocked refl refl refl in
    let u' = task_set_state u c TaskState.blocked in
    let apart : (t : ℕ) → contains xs t ≡ true → t ≢ c =
      λ t m q. ground (arith, out, ap (contains xs) q) in
    let (idle, cpu, _, _) =
      task_set_state-kept base u ys c (nodes-IsValid base s ys n v.valid) live busy here
        TaskState.blocked refl refl in
    let waits : IsWakeable u' c = (idle ∙ busy, ap (leb max_cpus) cpu ∙ here) in
    record {
      still = record {
        valid = r.valid;
        list =
            subst (λ k. IsWaitList k (add_to_wait_list s.nodes w c).1 (xs ++ c ∷ []))
              (sym (ap (λ k. k.nodes) r.moves.frame)) list;
        blocked = λ t m. elim (Bool-cases (c == t)) [
          | inl e ↦
              let at : c ≡ t = ground arith in
              subst (λ k. is_blocked (state_of u' k) ≡ true) at (ap is_blocked r.state)
          | inr e ↦
              ap is_blocked (ap (λ k. k.state) (r.moves.others t (λ q. ground arith)))
              ∙ v.blocked t (contains-append_one xs c t m e)
        ];
        wakeable = λ t m. elim (Bool-cases (c == t)) [
          | inl e ↦ let at : c ≡ t = ground arith in subst (λ k. IsWakeable u' k) at waits
          | inr e ↦
              let q = r.moves.others t (λ q. ground arith) in
              let (b, h) = v.wakeable t (contains-append_one xs c t m e) in
              (ap (λ k. k.is_idle) q ∙ b, ap (λ k. leb max_cpus k.cpu_id) q ∙ h)
        ];
      };
      others = λ t ne. ap (λ k. k.state) (r.moves.others t ne);
      weights = λ t ne. ap (λ k. k.weight) (r.moves.others t ne);
    }

-- Preparing the node of a task that is not on the list does not change the list.
pub prepare_node-IsWaitList :
    (s : Sched) (w : Waiters) (xs : List ℕ) (c : ℕ)
    → IsWaitList s.nodes w xs
    → contains xs c ≡ false
    → IsWaitList (prepare_node s c).nodes w xs
prepare_node-IsWaitList s w xs c v out =
    let apart : (t : ℕ) → contains xs t ≡ true → t ≢ c =
      λ t m q. ground (arith, out, ap (contains xs) q) in
    record {
      chain =
          IsChain-agree (next_in s.nodes) _ w.head xs (λ t m. ground (arith, apart t m)) v.chain;
      tail = v.tail;
      distinct = v.distinct;
      short = v.short;
      owned = λ t m. ground (arith, v.owned t m, apart t m);
    }

pub prepare_node-Waiting :
    (base : ℕ) (s : Sched) (ys : List ℕ) (w : Waiters) (xs : List ℕ) (c : ℕ)
    → Waiting base s ys w xs
    → contains xs c ≡ false
    → Waiting base (prepare_node s c) ys w xs
prepare_node-Waiting base s ys w xs c v out = record {
  valid = nodes-IsValid base s ys _ v.valid;
  list = prepare_node-IsWaitList s w xs c v.list out;
  blocked = v.blocked;
  wakeable = v.wakeable;
}

-- The same, for code that pops and unblocks in two steps.
pub popped-Woke :
    (base : ℕ) (s : Sched) (ys : List ℕ) (w : Waiters) (xs : List ℕ)
    → Waiting base s ys w xs
    → let (p, w') = pop_from_wait_list s.nodes w in
      (p ≡ head? xs) × Woke base s (unblock_if s (head? xs)) ys w' xs
popped-Woke base s ys w xs v =
    let (popped, _) = pop_from_wait_list-IsWaitList s.nodes w xs v.list in
    (popped, rw (wake_first-eq w s popped) at (wake_first-Woke base s ys w xs v))
