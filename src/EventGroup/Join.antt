-- ===== src/EventGroup/Join.antt =====
-- kernel/src/event_group.c: a caller that has to wait joins the waiters.
use so_rtos.Base.{
  ℕ, ◌≡◌, ◌≢◌, ◌<◌, refl, ◌==◌, arith, true, false, some, List, [], ◌∷◌, ◌++◌, Bool-cases, inl, inr,
  ap, sym, subst, ◌∙◌, leb,
}
use so_rtos.Chain.{length, contains, erase}
use so_rtos.Task.{WaitNode, TaskState, max_tasks, max_cpus, is_ready}
use so_rtos.Sched.{Sched, modify}
use so_rtos.Sched.Block.{task_set_state}
use so_rtos.Sched.Wait.{fall_asleep}
use so_rtos.Sched.Sleep.{wake_tick}
use so_rtos.Sched.Invariant.{IsValid, is_live, state_of}
use so_rtos.Sched.Invariant.State.{Restated, task_set_state-Restated, task_set_state-kept}
use so_rtos.Sched.Invariant.Touch.{modify-IsValid}
use so_rtos.Sched.Invariant.Sleeping.{fall_asleep-Asleep}
use so_rtos.WaitList.{Waiters, prepare_node, add_to_wait_list}
use so_rtos.WaitList.Order.{IsWaitList, add_to_wait_list-IsWaitList, contains-append_one}
use so_rtos.WaitList.Wake.{IsWakeable, nodes-IsValid, prepare_node-IsWaitList}
use so_rtos.Sched.Invariant.Attach.{Moves, Moves-trans}
use so_rtos.EventGroup.{EventGroup, set_event_wait}
use so_rtos.EventGroup.Pending.{Pending, is_waiting, Wish, wish_of}

-- The caller has written its wish and prepared its node.
abbrev pub asking : Sched → ℕ → ℕ → ℕ → Sched
asking s c mask flags = modify (prepare_node s c) c (set_event_wait mask flags)

pub asking-Pending :
    (base : ℕ) (s : Sched) (ys : List ℕ) (w : Waiters) (xs : List ℕ) (c mask flags : ℕ)
    → Pending base s ys w xs
    → contains xs c ≡ false
    → Pending base (asking s c mask flags) ys w xs
asking-Pending base s ys w xs c mask flags v out =
    let apart : (t : ℕ) → contains xs t ≡ true → t ≢ c =
      λ t m q. ground (arith, out, ap (contains xs) q) in
    record {
      valid =
          modify-IsValid base (prepare_node s c) ys c (set_event_wait mask flags) refl refl refl
            refl refl (nodes-IsValid base s ys _ v.valid);
      list = prepare_node-IsWaitList s w xs c v.list out;
      waits = λ t m. ground (arith, apart t m, v.waits t m);
      wakeable = λ t m. ground (arith, apart t m, v.wakeable t m);
    }

-- What joining the waiters leaves: the caller is last on the list, with its wish and in the state.
pub record Queued (base c : ℕ) (x : TaskState) (w : Wish) (s s' : Sched) (eg' : EventGroup)
    (xs : List ℕ) : Type 0 where
  pub sleepers : List ℕ
  pub still : Pending base s' sleepers eg'.waiters (xs ++ c ∷ [])
  pub state : state_of s' c ≡ x
  pub wish : wish_of s' c ≡ w
  pub others : (t : ℕ) → t ≢ c → (state_of s' t ≡ state_of s t) × (wish_of s' t ≡ wish_of s t)

joined-Pending :
    (base : ℕ) (s s' : Sched) (ys ys' : List ℕ) (w : Waiters) (xs : List ℕ) (c : ℕ)
    → Pending base s ys w xs
    → contains xs c ≡ false
    → length xs < max_tasks
    → (s.nodes c).task ≡ c
    → Moves c (record s { nodes = (add_to_wait_list s.nodes w c).0 }) s'
    → IsValid base s' ys'
    → is_waiting (state_of s' c) ≡ true
    → IsWakeable s' c
    → Pending base s' ys' (add_to_wait_list s.nodes w c).1 (xs ++ c ∷ [])
joined-Pending base s s' ys ys' w xs c v out room own moves valid waits wakeable = record {
  valid = valid;
  list =
      subst (λ n. IsWaitList n (add_to_wait_list s.nodes w c).1 (xs ++ c ∷ []))
        (sym (ap (λ k. k.nodes) moves.frame))
        (add_to_wait_list-IsWaitList s.nodes w xs c v.list out own room);
  waits = λ t m. elim (Bool-cases (c == t)) [
    | inl e ↦
        let at : c ≡ t = ground arith in subst (λ k. is_waiting (state_of s' k) ≡ true) at waits
    | inr e ↦
        ground
          (arith, moves.others t (λ q. ground arith), v.waits t (contains-append_one xs c t m e))
  ];
  wakeable = λ t m. elim (Bool-cases (c == t)) [
    | inl e ↦ let at : c ≡ t = ground arith in subst (λ k. IsWakeable s' k) at wakeable
    | inr e ↦
        ground
          (arith, moves.others t (λ q. ground arith), v.wakeable t (contains-append_one xs c t m e))
  ];
}

others_kept :
    {c : ℕ} {s' : Sched} {n : ℕ → WaitNode} (s : Sched)
    → Moves c (record s { nodes = n }) s'
    → (t : ℕ) → t ≢ c
    → (state_of s' t ≡ state_of s t) × (wish_of s' t ≡ wish_of s t)
others_kept s m t ne = (ground (arith, m.others t ne), ground (arith, m.others t ne))

-- The caller's node is linked, and then the caller is blocked.
abbrev pub linked : EventGroup → Sched → ℕ → Sched
linked eg s c = record s { nodes = (add_to_wait_list s.nodes eg.waiters c).0 }

abbrev pub halted : EventGroup → Sched → ℕ → Sched
halted eg s c = task_set_state (linked eg s c) c TaskState.blocked

abbrev pub joined : EventGroup → Sched → ℕ → EventGroup
joined eg s c = record eg { waiters = (add_to_wait_list s.nodes eg.waiters c).1 }

module _ (base c : ℕ) (eg : EventGroup) (s : Sched) (ys xs : List ℕ)
    (v : Pending base s ys eg.waiters xs) (out : contains xs c ≡ false)
    (room : length xs < max_tasks) (own : (s.nodes c).task ≡ c)
    (live : is_live (state_of s c) ≡ true) (wakeable : IsWakeable s c) where
  halted-Restated : Restated c TaskState.blocked base (linked eg s c) (halted eg s c) ys
  halted-Restated =
      task_set_state-Restated base (linked eg s c) ys c
        (nodes-IsValid base s ys (linked eg s c).nodes v.valid) live wakeable.0 wakeable.1
        TaskState.blocked refl refl refl

  halted-kept :
      (((halted eg s c).task_of c).is_idle ≡ (s.task_of c).is_idle)
      × (((halted eg s c).task_of c).cpu_id ≡ (s.task_of c).cpu_id)
      × (((halted eg s c).task_of c).event_mask ≡ (s.task_of c).event_mask)
      × (((halted eg s c).task_of c).event_flags ≡ (s.task_of c).event_flags)
  halted-kept =
      task_set_state-kept base (linked eg s c) ys c
        (nodes-IsValid base s ys (linked eg s c).nodes v.valid) live wakeable.0 wakeable.1
        TaskState.blocked refl refl

  -- The caller waits without a limit.
  pub halted-Queued :
      Queued base c TaskState.blocked (wish_of s c) s (halted eg s c) (joined eg s c) xs
  halted-Queued =
      let (busy, here) = wakeable in
      let r = halted-Restated in
      let (idle, cpu, mask, flags) = halted-kept in
      record {
        sleepers = erase c ys;
        still =
            joined-Pending base s (halted eg s c) ys (erase c ys) eg.waiters xs c v out room own
              r.moves r.valid (ap is_waiting r.state) (idle ∙ busy, ap (leb max_cpus) cpu ∙ here);
        state = r.state;
        wish = ground (arith, mask, flags);
        others = others_kept s r.moves;
      }

  -- The caller waits until a tick.
  pub asleep-Queued :
      (until : ℕ)
      → Queued base c TaskState.sleeping
          (wish_of s c)
          s
          (fall_asleep (halted eg s c) c until)
          (joined eg s c)
          xs
        × (wake_tick (fall_asleep (halted eg s c) c until) c ≡ until)
  asleep-Queued until =
      let (busy, here) = wakeable in
      let r = halted-Restated in
      let (idle, cpu, mask, flags) = halted-kept in
      let a =
        fall_asleep-Asleep base (halted eg s c) (erase c ys) c until r.valid (ap is_live r.state)
          (ap is_ready r.state) in
      let s' = fall_asleep (halted eg s c) c until in
      let moves = Moves-trans r.moves a.moves in
      (
        record {
          sleepers = _;
          still =
              joined-Pending base s s' ys _ eg.waiters xs c v out room own moves a.valid
                (ap is_waiting a.state)
                (a.idle ∙ (idle ∙ busy), ap (leb max_cpus) (a.cpu ∙ cpu) ∙ here);
          state = a.state;
          wish = ground (arith, mask, flags, a.mask, a.flags);
          others = others_kept s moves;
        },
        a.wake,
      )

  pub halted-curr :
      s.curr ≡ some c
      → ((halted eg s c).curr ≡ some c) × (((halted eg s c).task_of c).is_idle ≡ false)
  halted-curr current =
      let (busy, here) = wakeable in
      let r = halted-Restated in
      let (idle, _, _, _) = halted-kept in (ap (λ k. k.curr) r.moves.frame ∙ current, idle ∙ busy)

pub asked-Queued :
    (base c mask flags : ℕ) (x : TaskState) (s s' : Sched) (eg' : EventGroup) (xs : List ℕ)
    → let u = asking s c mask flags in
      Queued base c x (wish_of u c) u s' eg' xs
      → Queued base c x (record { mask = mask; flags = flags }) s s' eg' xs
asked-Queued base c mask flags x s s' eg' xs q = record {
  sleepers = q.sleepers;
  still = q.still;
  state = q.state;
  wish = q.wish ∙ ground arith;
  others =
      λ t ne. let (state, wish) = q.others t ne in (ground (arith, state), wish ∙ ground arith);
}
