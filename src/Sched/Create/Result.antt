-- ===== src/Sched/Create/Result.antt =====
-- kernel/src/scheduler.c: what `task_create` returns, and leaves.
use so_rtos.Base.{
  ℕ, ◌≡◌, refl, arith, true, false, Option, none, some, List, [], ◌∷◌, ap, sym, subst, ◌∙◌,
  Bool-cases, inl, inr, ◌==◌, Bool, if◌then◌else◌, if_true, if_false, ltb, ◌||◌, is_null, ◌+◌, zero,
  suc,
}
use so_rtos.Chain.{IsChain-agree}
use so_rtos.Task.{max_tasks, is_unused, is_zombie}
use so_rtos.Sched.{Sched}
use so_rtos.Sched.Sleep.{next_of}
use so_rtos.Sched.Block.{is_id_used}
use so_rtos.Sched.Invariant.{state_of}
use so_rtos.Sched.Collect.{Allocator, Kernel, take_slot, return_slot, task_garbage_collection}
use so_rtos.Sched.Collect.Pool.{Pooled, Slots, Slots-IsValid, Slots-IsNamed}
use so_rtos.Sched.Collect.Reclaim.{reverse_onto, stack_of, task_garbage_collection-Collected}
use so_rtos.Sched.Create.{
  InitStack, Request, stack_min_size, stack_max_size, stack_canary, align_stack, first_free_id,
  give_id, set_up, retry_stack, retry_slot, try_stack, try_slot, with_slots, create_for,
  task_create,
}
use so_rtos.Sched.Create.Ids.{first_free_id-found}
use so_rtos.Sched.Create.Fresh.{with_slot}
use so_rtos.Sched.Create.Outcome.{Created, enlist-Created, enlist-stack}

-- What a creation that succeeds leaves: the task `t` has the ID that is returned and the stack, with
-- the mark at its lowest word.
pub record Succeeds {H : Type 0} (base t weight stack : ℕ) (s : Sched) (ys zs fs : List ℕ)
    (heap : H) (result : Option ℕ) (k' : Kernel H) : Type 0 where
  pub id : ℕ
  pub returned : result ≡ some id
  pub created : Created base t id weight s k'.sched ys zs fs
  pub stack_kept : stack_of k'.sched t ≡ some stack
  pub marked : k'.words stack ≡ stack_canary
  pub rest : k'.heap ≡ heap

-- The bits of the IDs are those of the state before the slot was taken.
first_free_id-kept :
    (rounds : ℕ) (s : Sched) (t stack size psp id : ℕ)
    → first_free_id rounds (with_slot s t stack size psp) id ≡ first_free_id rounds s id
unfolding first_free_id is_id_used
first_free_id-kept zero s t stack size psp id = refl
first_free_id-kept (suc rounds) s t stack size psp id =
    ap (λ r. if is_id_used s id then r else some id)
      (first_free_id-kept rounds s t stack size psp (suc id))

reverse_onto-some :
    (zs : List ℕ) (x : ℕ) (fs : List ℕ)
    → (t : ℕ) × (fs' : List ℕ) × (reverse_onto zs (x ∷ fs) ≡ t ∷ fs')
reverse_onto-some [] x fs = (x, fs, refl)
reverse_onto-some (z ∷ zs) x fs = reverse_onto-some zs z (x ∷ fs)

-- Taking a slot and putting it back changes no link.
put_back-next : (s : Sched) (t k : ℕ) → next_of (return_slot (take_slot s t) t) k ≡ next_of s k
put_back-next s t k = elim (Bool-cases (k == t)) [
  | inl e ↦ let at : k ≡ t = ground arith in rw at (ground arith)
  | inr e ↦ ground arith
]

put_back-Pooled :
    (base : ℕ) (s : Sched) (ys zs fs : List ℕ) (t : ℕ)
    → Pooled base s ys zs (t ∷ fs)
    → Pooled base (return_slot (take_slot s t) t) ys zs (t ∷ fs)
put_back-Pooled base s ys zs fs t v =
    let s' = return_slot (take_slot s t) t in
    let unused = v.pool.unused t (ground arith) in
    let same : (k : ℕ) → state_of s' k ≡ state_of s k = λ k. ground arith in
    let slots : Slots t s s' = record {
      frame = refl;
      others = λ k ne. ground arith;
      index = ground arith;
      run = ground arith;
      idle = ground arith;
      dead = ground arith;
      still = ground (arith, same t);
    } in
    record {
      valid = Slots-IsValid base t s s' slots ys v.valid;
      pool = record {
        zombies =
            IsChain-agree (next_of s) (next_of s') s.zombie_list zs (λ y m. put_back-next s t y)
              v.pool.zombies;
        free =
            IsChain-agree (next_of s) (next_of s') (some t) (t ∷ fs) (λ y m. put_back-next s t y)
              (refl, v.pool.free.1);
        zombies_distinct = v.pool.zombies_distinct;
        free_distinct = v.pool.free_distinct;
        buried = λ y m. ap is_zombie (same y) ∙ v.pool.buried y m;
        unused = λ y m. ap is_unused (same y) ∙ v.pool.unused y m;
        inside = λ y dead. v.pool.inside y (sym (ap is_zombie (same y)) ∙ dead);
        slots = v.pool.slots;
      };
      named = Slots-IsNamed base t s s' slots v.named;
    }

module _ {H : Type 0} (alloc : Allocator H) (init_stack : InitStack) where
  set_up-Succeeds :
      (base : ℕ) (k : Kernel H) (ys zs fs : List ℕ) (t stack size func arg weight : ℕ)
      (owned : Bool)
      → Pooled base k.sched ys zs (t ∷ fs)
      → let (result, k') =
          set_up alloc init_stack
            (record k { sched = take_slot k.sched t })
            t
            stack
            size
            func
            arg
            weight
            owned in
        Succeeds base t weight stack k.sched ys zs fs k.heap result k'
  unfolding set_up give_id
  set_up-Succeeds base k ys zs fs t stack size func arg weight owned v =
      let dead = v.pool.unused t (ground arith) in
      let (id, found, range, free) =
        first_free_id-found base k.sched ys t v.valid v.named (v.pool.slots t (ground arith))
          (ground arith) in
      let (psp, words) = init_stack (stack + size) func arg k.words in
      rw (first_free_id-kept max_tasks k.sched t stack size psp 1 ∙ found) (record {
        id = id;
        returned = refl;
        created = enlist-Created base k.sched ys zs fs t stack size psp id weight v range free;
        stack_kept = enlist-stack base k.sched ys zs fs t stack size psp id weight v range free;
        marked = ground arith;
        rest = refl;
      })

  slots_kept :
      (k : Kernel H) (t : ℕ) → k.sched.free_list ≡ some t → with_slots alloc init_stack k ≡ k
  unfolding with_slots
  slots_kept k t e = if_false _ _ (ap is_null e)

  slots_collected :
      (k : Kernel H)
      → k.sched.free_list ≡ none
      → with_slots alloc init_stack k ≡ task_garbage_collection alloc k
  unfolding with_slots
  slots_collected k e = if_true _ _ (ap is_null e)

  module _ (k : Kernel H) (r : Request) (func : ℕ) (asked : r.func ≡ some func)
      (sized : (ltb r.size stack_min_size || ltb stack_max_size r.size) ≡ false) where
    -- With a slot on the free list.
    tries :
        (k' : Kernel H) (t : ℕ)
        → with_slots alloc init_stack k ≡ k'
        → k'.sched.free_list ≡ some t
        → task_create alloc init_stack k r
          ≡ try_stack alloc init_stack
              (record k' { sched = take_slot k'.sched t })
              t
              (align_stack r.size)
              func
              r.arg
              r.weight
              (alloc.malloc k'.heap (align_stack r.size))
    unfolding task_create try_slot
    tries k' t same head =
        ap (create_for alloc init_stack k r) asked
        ∙ (if_false _ _ sized
            ∙ (ap
                  (λ u.
                    try_slot alloc init_stack u (align_stack r.size) func r.arg r.weight
                      u.sched.free_list)
                  same
                ∙ ap (try_slot alloc init_stack k' (align_stack r.size) func r.arg r.weight) head))

    -- When scheduler, pool and IDs agree, a slot is free and the allocator has a stack,
    -- `task_create` with a function and a size in range returns an ID that no live task had, and
    -- leaves the task ready, not idle and in the ready heap at the least virtual runtime, with its
    -- weight, its stack and the stack's mark; every other task is as before but for its place in the
    -- heap, and the agreement stands.
    pub task_create-Succeeds :
        (base : ℕ) (ys zs fs : List ℕ) (t stack : ℕ) (heap : H)
        → Pooled base k.sched ys zs (t ∷ fs)
        → alloc.malloc k.heap (align_stack r.size) ≡ (some stack, heap)
        → let (result, k') = task_create alloc init_stack k r in
          Succeeds base t r.weight stack k.sched ys zs fs heap result k'
    unfolding try_stack
    task_create-Succeeds base ys zs fs t stack heap v has =
        let head = v.pool.free.0 in
        let taken = record k { sched = take_slot k.sched t } in
        rw
          (tries k t (slots_kept k t head) head
            ∙ ap (try_stack alloc init_stack taken t (align_stack r.size) func r.arg r.weight) has)
          (set_up-Succeeds base (record k { heap = heap }) ys zs fs t stack (align_stack r.size)
            func r.arg r.weight true v)

    -- When no slot is free but deleted tasks wait for their collection, and the allocator has a
    -- stack behind it, `task_create` with a function and a size in range collects them and succeeds
    -- in the same way, in one of their slots.
    pub task_create-recycles :
        (base : ℕ) (ys zs : List ℕ) (z stack : ℕ) (heap : H)
        → Pooled base k.sched ys (z ∷ zs) []
        → alloc.malloc (task_garbage_collection alloc k).heap (align_stack r.size)
          ≡ (some stack, heap)
        → let (result, k') = task_create alloc init_stack k r in
          (t : ℕ) × (fs : List ℕ) × (reverse_onto (z ∷ zs) [] ≡ t ∷ fs)
          × Succeeds base t r.weight stack
              (task_garbage_collection alloc k).sched
              ys
              []
              fs
              heap
              result
              k'
    unfolding try_stack
    task_create-recycles base ys zs z stack heap v has =
        let c = task_garbage_collection-Collected alloc base k ys (z ∷ zs) [] v in
        let (t, fs, e) = reverse_onto-some zs z [] in
        let k₁ = task_garbage_collection alloc k in
        let v₁ : Pooled base k₁.sched ys [] (t ∷ fs) =
          subst (Pooled base k₁.sched ys []) e c.pooled in
        let head = v₁.pool.free.0 in
        let taken = record k₁ { sched = take_slot k₁.sched t } in
        (
          t,
          fs,
          e,
          rw
              (tries k₁ t (slots_collected k v.pool.free) head
                ∙ ap (try_stack alloc init_stack taken t (align_stack r.size) func r.arg r.weight)
                    has)
              (set_up-Succeeds base (record k₁ { heap = heap }) ys [] fs t stack
                (align_stack r.size) func r.arg r.weight true v₁),
        )

    -- The kernel with the slot put back.
    abbrev refilled : ℕ → H → Kernel H
    refilled t h = record k { sched = return_slot (take_slot k.sched t) t; heap = h }

    -- When the allocator has no stack, and none behind the collection that follows, `task_create`
    -- returns -1, puts the slot back, and leaves scheduler, pool and IDs in agreement, with the
    -- deleted tasks collected.
    pub task_create-refused :
        (base : ℕ) (ys zs fs : List ℕ) (t : ℕ) (h h' : H)
        → Pooled base k.sched ys zs (t ∷ fs)
        → alloc.malloc k.heap (align_stack r.size) ≡ (none, h)
        → alloc.malloc (task_garbage_collection alloc (refilled t h)).heap (align_stack r.size)
          ≡ (none, h')
        → let (result, k') = task_create alloc init_stack k r in
          (result ≡ none) × Pooled base k'.sched ys [] (reverse_onto zs (t ∷ fs))
    unfolding try_stack retry_slot
    task_create-refused base ys zs fs t h h' v first never =
        let head = v.pool.free.0 in
        let size = align_stack r.size in
        let taken = record k { sched = take_slot k.sched t } in
        let back = refilled t h in
        let c =
          task_garbage_collection-Collected alloc base back ys zs (t ∷ fs)
            (put_back-Pooled base k.sched ys zs fs t v) in
        let (x, xs, e) = reverse_onto-some zs t fs in
        let k₁ = task_garbage_collection alloc back in
        let v₁ : Pooled base k₁.sched ys [] (x ∷ xs) =
          subst (Pooled base k₁.sched ys []) e c.pooled in
        let taken₁ = record k₁ { sched = take_slot k₁.sched x } in
        rw
          (tries k t (slots_kept k t head) head
            ∙ (ap (try_stack alloc init_stack taken t size func r.arg r.weight) first
                ∙ (ap (retry_slot alloc init_stack k₁ size func r.arg r.weight) v₁.pool.free.0
                    ∙ ap (retry_stack alloc init_stack taken₁ x size func r.arg r.weight) never)))
          (
            refl,
            subst (Pooled base (return_slot (take_slot k₁.sched x) x) ys []) (sym e)
                (put_back-Pooled base k₁.sched ys [] xs x v₁),
          )
