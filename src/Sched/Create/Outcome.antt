-- ===== src/Sched/Create/Outcome.antt =====
-- kernel/src/scheduler.c: what a creation leaves of the pool and the IDs.
use so_rtos.Base.{
  some, ℕ, ◌≡◌, ◌≢◌, arith, true, false, List, ◌∷◌, ap, sym, subst, ◌∙◌, ◌*◌, Bool-cases, inl, inr,
  ◌==◌, if◌then◌else◌, if_true, if_false, is_null, not, ◌&&◌,
}
use so_rtos.Chain.{contains, IsChain, IsChain-absent}
use so_rtos.Task.{TaskState, base_slice_ticks, is_ready}
use so_rtos.Sched.{Sched}
use so_rtos.Sched.Heap.{get_min_vruntime}
use so_rtos.Sched.Heap.Index.{heap_index}
use so_rtos.Sched.Sleep.{next_of}
use so_rtos.Sched.Block.{is_id_used, mark_id}
use so_rtos.Sched.Invariant.{is_live, state_of}
use so_rtos.Sched.Collect.Pool.{IsPool, IsNamed, IsId, Pooled}
use so_rtos.Sched.Weight.{at_least_one}
use so_rtos.Sched.Create.{with_start, enlist}
use so_rtos.Sched.Create.Ids.{mark_id-used}
use so_rtos.Sched.Create.Fresh.{with_slot, min-kept, inserts, enlisted, enlist-others, enlist-own}

-- What the creation of the task `t` leaves.
pub record Created (base t id share : ℕ) (s s' : Sched) (ys zs fs : List ℕ) : Type 0 where
  pub pooled : Pooled base s' ys zs fs
  pub state : state_of s' t ≡ TaskState.ready
  pub not_idle : (s'.task_of t).is_idle ≡ false
  pub queued : is_null (heap_index s' t) ≡ false
  pub name : (s'.task_of t).task_id ≡ id
  pub fresh : is_id_used s id ≡ false
  pub weight : (s'.task_of t).weight ≡ at_least_one share
  pub slice : (s'.task_of t).time_slice ≡ at_least_one share * base_slice_ticks
  pub run : (s'.task_of t).vruntime ≡ get_min_vruntime s
  pub others :
      (k : ℕ) → k ≢ t → s'.task_of k ≡ record (s.task_of k) { heap_index = heap_index s' k }

module _ (base : ℕ) (s : Sched) (ys zs fs : List ℕ) (t stack size psp id weight : ℕ)
    (v : Pooled base s ys zs (t ∷ fs)) (range : IsId id) (free : is_id_used s id ≡ false) where
  created : Sched
  created = enlist (with_slot s t stack size psp) t id weight

  created-others :
      (k : ℕ)
      → k ≢ t
      → created.task_of k ≡ record (s.task_of k) { heap_index = heap_index created k }
  unfolding created
  created-others = enlist-others base s ys zs fs t stack size psp id weight v range free

  created-own :
      let u = with_slot s t stack size psp in
      created.task_of t ≡ record (with_start u id (at_least_one weight) (u.task_of t)) {
        heap_index = heap_index created t;
      }
  unfolding created
  created-own = enlist-own base s ys zs fs t stack size psp id weight v range free

  lists :
      (created.zombie_list ≡ s.zombie_list)
      × (created.free_list ≡ next_of s t)
      × ((j : ℕ) → is_id_used created j ≡ is_id_used (mark_id true s id) j)
  unfolding created enlist is_id_used mark_id
  lists =
      let r = inserts base s ys zs fs t stack size psp id weight v range free in
      (
        ap (λ x. x.zombie_list) r.frame,
        ap (λ x. x.free_list) r.frame,
        λ j. ap (λ x. is_id_used x j) r.frame,
      )

  off_zombies : contains zs t ≡ false
  off_zombies = ground (arith, v.pool.buried t, v.pool.unused t)

  state-other : (k : ℕ) → k ≢ t → state_of created k ≡ state_of s k
  state-other k ne = ground (arith, created-others k ne)

  created-IsPool : IsPool created zs fs
  created-IsPool =
      let (zombie_list, free_list, _) = lists in
      let here = v.pool.free_distinct.0 in
      record {
        zombies =
            subst (λ p. IsChain (next_of created) p zs) (sym zombie_list)
              (IsChain-absent (next_of s) (next_of created) _ t zs off_zombies
                (λ y ne. ap (λ u. u.next) (created-others y ne)) v.pool.zombies);
        free =
            subst (λ p. IsChain (next_of created) p fs) (sym free_list)
              (IsChain-absent (next_of s) (next_of created) _ t fs here
                (λ y ne. ap (λ u. u.next) (created-others y ne)) v.pool.free.1);
        zombies_distinct = v.pool.zombies_distinct;
        free_distinct = v.pool.free_distinct.1;
        buried = λ y m. ground (
          arith,
          state-other y (λ q. ground (arith, off_zombies, ap (contains zs) q)),
          v.pool.buried y,
        );
        unused = λ y m.
            ground (
              arith,
              state-other y (λ q. ground (arith, here, ap (contains fs) q)),
              v.pool.unused y,
            );
        inside = λ y dead. elim (Bool-cases (y == t)) [
          | inl e ↦ ground (arith, v.pool.slots t)
          | inr e ↦ v.pool.inside y (ground (arith, state-other y (λ q. ground arith)))
        ];
        slots = λ y m. v.pool.slots y (ground arith);
      }

  id_used : (j : ℕ) → IsId j → is_id_used created j ≡ (if j == id then true else is_id_used s j)
  id_used j q = let (_, _, bits) = lists in bits j ∙ mark_id-used s id j range q

  live-other : (k : ℕ) → k ≢ t → is_live (state_of created k) ≡ is_live (state_of s k)
  live-other k ne = ap is_live (state-other k ne)

  name-other : (k : ℕ) → k ≢ t → (created.task_of k).task_id ≡ (s.task_of k).task_id
  name-other k ne = ap (λ u. u.task_id) (created-others k ne)

  name-own : (created.task_of t).task_id ≡ id
  name-own = ap (λ u. u.task_id) created-own

  live-own : is_live (state_of created t) ≡ true
  live-own = ap (λ u. is_live u.state) created-own ∙ ground arith

  -- A live task but for the new one does not have the new ID.
  other-name :
      (k : ℕ) → k ≢ t → is_live (state_of created k) ≡ true → (created.task_of k).task_id ≢ id
  other-name k ne live q =
      let old = v.named.used k (sym (live-other k ne) ∙ live) in
      ground (arith, ap (is_id_used s) (sym (name-other k ne) ∙ q), old, free)

  created-IsNamed : IsNamed created
  created-IsNamed = record {
    ranged = λ k live. elim (Bool-cases (k == t)) [
      | inl e ↦
          let at : k ≡ t = ground arith in
          subst IsId (sym (ap (λ j. (created.task_of j).task_id) at ∙ name-own)) range
      | inr e ↦
          let ne : k ≢ t = λ q. ground arith in
          subst IsId (sym (name-other k ne)) (v.named.ranged k (sym (live-other k ne) ∙ live))
    ];
    used = λ k live. elim (Bool-cases (k == t)) [
      | inl e ↦
          let at : k ≡ t = ground arith in
          ap (λ j. is_id_used created (created.task_of j).task_id) at
          ∙ (ap (is_id_used created) name-own
              ∙ (id_used id range ∙ if_true _ _ {b = id == id} (ground arith)))
      | inr e ↦
          let ne : k ≢ t = λ q. ground arith in
          let old = sym (live-other k ne) ∙ live in
          ap (is_id_used created) (name-other k ne)
          ∙ (id_used _ (v.named.ranged k old) ∙ ground (arith, v.named.used k old))
    ];
    owner = λ j q h. elim (Bool-cases (j == id)) [
      | inl e ↦ let at : id ≡ j = ground arith in (t, live-own, name-own ∙ at)
      | inr e ↦
          let (k, live, is) = v.named.owner j q (sym (id_used j q ∙ if_false _ _ e) ∙ h) in
          let ne : k ≢ t =
            λ p. ground (arith, v.pool.unused t, ap (λ i. is_live (state_of s i)) p) in
          (k, live-other k ne ∙ live, name-other k ne ∙ is)
    ];
    unique = λ k u live live' e. elim (Bool-cases (k == t)) [
      | inl p ↦ elim (Bool-cases (u == t)) [
        | inl q ↦ ground arith
        | inr q ↦
            let at : k ≡ t = ground arith in
            absurd (
              other-name u (λ r. ground arith) live'
                (sym e ∙ (ap (λ j. (created.task_of j).task_id) at ∙ name-own)))
      ]
      | inr p ↦ elim (Bool-cases (u == t)) [
        | inl q ↦
            let at : u ≡ t = ground arith in
            absurd (
              other-name k (λ r. ground arith) live
                (e ∙ (ap (λ j. (created.task_of j).task_id) at ∙ name-own)))
        | inr q ↦
            let ne : k ≢ t = λ r. ground arith in
            let ne' : u ≢ t = λ r. ground arith in
            v.named.unique k u (sym (live-other k ne) ∙ live) (sym (live-other u ne') ∙ live')
              (sym (name-other k ne) ∙ (e ∙ name-other u ne'))
      ]
    ];
  }

  state-own : state_of created t ≡ TaskState.ready
  state-own = ap (λ u. u.state) created-own ∙ ground arith

  idle-own : (created.task_of t).is_idle ≡ false
  idle-own = ap (λ u. u.is_idle) created-own ∙ ground arith

  pub enlist-Created :
      Created base t id weight s (enlist (with_slot s t stack size psp) t id weight) ys zs fs
  unfolding created
  enlist-Created = record {
    pooled = record {
      valid = enlisted base s ys zs fs t stack size psp id weight v range free;
      pool = created-IsPool;
      named = created-IsNamed;
    };
    state = state-own;
    not_idle = idle-own;
    queued =
        (enlisted base s ys zs fs t stack size psp id weight v range free).queued t
        ∙ ap (λ b. not b)
            (ap (λ x. is_ready x && not (created.task_of t).is_idle) state-own
              ∙ ap (λ b. not b) idle-own);
    name = name-own;
    fresh = free;
    weight = ap (λ u. u.weight) created-own;
    slice = ap (λ u. u.time_slice) created-own;
    run = ap (λ u. u.vruntime) created-own ∙ min-kept s t stack size psp;
    others = created-others;
  }

  pub enlist-stack :
      ((enlist (with_slot s t stack size psp) t id weight).task_of t).stack_ptr ≡ some stack
  unfolding created
  enlist-stack = ap (λ u. u.stack_ptr) created-own ∙ ground arith
