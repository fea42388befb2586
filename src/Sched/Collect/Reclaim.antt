-- ===== src/Sched/Collect/Reclaim.antt =====
-- kernel/src/scheduler.c: the collection puts every deleted task's slot back on the free list.
use so_rtos.Base.{
  ℕ, zero, suc, ◌≡◌, ◌≢◌, ◌≤◌, refl, arith, true, false, Option, none, some, List, [], ◌∷◌, ap, sym,
  subst, ◌∙◌, ◌-◌, Bool-cases, inl, inr, ◌==◌, if◌then◌else◌, if_true, if_false,
}
use so_rtos.Chain.{length, contains, IsChain, IsChain-absent}
use so_rtos.Task.{TaskState, max_tasks, is_zombie, is_unused}
use so_rtos.Sched.{Sched}
use so_rtos.Sched.Sleep.{next_of}
use so_rtos.Sched.Invariant.{state_of}
use so_rtos.Sched.Invariant.Room.{pigeonhole}
use so_rtos.Sched.Collect.{Allocator, Kernel, free_stack, reclaim, collect, task_garbage_collection}
use so_rtos.Sched.Collect.Pool.{IsPool, Pooled, Slots, Slots-IsValid, Slots-IsNamed}

-- The free list behind a collection: the zombies, last first, and what was there.
abbrev pub reverse_onto : List ℕ → List ℕ → List ℕ
reverse_onto [] fs = fs
reverse_onto (x ∷ zs) fs = reverse_onto zs (x ∷ fs)

module _ {H : Type 0} (alloc : Allocator H) where
  -- The allocator when the stack, if it is one of the heap, has been freed.
  abbrev pub free_one : H → Option ℕ → H
  free_one h none = h
  free_one h (some stack) = if alloc.is_heap_pointer h stack then alloc.free h stack else h

  abbrev pub free_all : (ℕ → Option ℕ) → H → List ℕ → H
  free_all stack_of h [] = h
  free_all stack_of h (x ∷ zs) = free_all stack_of (free_one h (stack_of x)) zs

abbrev pub stack_of : Sched → ℕ → Option ℕ
stack_of s t = (s.task_of t).stack_ptr

-- What the collection of one task leaves.
pub record Reclaimed {H : Type 0} (alloc : Allocator H) (t : ℕ) (k k' : Kernel H) : Type 0 where
  pub slots : Slots t k.sched k'.sched
  pub state : state_of k'.sched t ≡ TaskState.unused
  pub next : next_of k'.sched t ≡ k.sched.free_list
  pub zombies : k'.sched.zombie_list ≡ next_of k.sched t
  pub free : k'.sched.free_list ≡ some t
  pub count : k'.sched.count ≡ k.sched.count - 1
  pub heap : k'.heap ≡ free_one alloc k.heap (stack_of k.sched t)
  pub words : k'.words ≡ k.words

module _ {H : Type 0} (alloc : Allocator H) where
  reclaim-Reclaimed :
      (k : Kernel H) (t : ℕ) (p : Option ℕ)
      → stack_of k.sched t ≡ p
      → is_zombie (state_of k.sched t) ≡ true
      → Reclaimed alloc t k (reclaim alloc k t)
  unfolding reclaim free_stack
  reclaim-Reclaimed k t none e dead = rw e (record {
    slots = record {
      frame = refl;
      others = λ j ne. ground arith;
      index = ground arith;
      run = ground arith;
      idle = ground arith;
      dead = ground arith;
      still = ground arith;
    };
    state = ground arith;
    next = ground arith;
    zombies = refl;
    free = refl;
    count = refl;
    heap = sym (ap (free_one alloc k.heap) e);
    words = refl;
  })
  reclaim-Reclaimed k t (some stack) e dead =
      elim (Bool-cases (alloc.is_heap_pointer k.heap stack)) [
        | inl b ↦
            rw (e, b)
              (record {
                slots = record {
                  frame = refl;
                  others = λ j ne. ground arith;
                  index = ground arith;
                  run = ground arith;
                  idle = ground arith;
                  dead = ground arith;
                  still = ground arith;
                };
                state = ground arith;
                next = ground arith;
                zombies = refl;
                free = refl;
                count = refl;
                heap = sym (ap (free_one alloc k.heap) e ∙ if_true _ _ b);
                words = refl;
              })
        | inr b ↦
            rw (e, b)
              (record {
                slots = record {
                  frame = refl;
                  others = λ j ne. ground arith;
                  index = ground arith;
                  run = ground arith;
                  idle = ground arith;
                  dead = ground arith;
                  still = ground arith;
                };
                state = ground arith;
                next = ground arith;
                zombies = refl;
                free = refl;
                count = refl;
                heap = sym (ap (free_one alloc k.heap) e ∙ if_false _ _ b);
                words = refl;
              })
      ]

  reclaim-IsPool :
      (k k' : Kernel H) (t : ℕ) (zs fs : List ℕ)
      → IsPool k.sched (t ∷ zs) fs
      → Reclaimed alloc t k k'
      → IsPool k'.sched zs (t ∷ fs)
  reclaim-IsPool k k' t zs fs v r =
      let out : contains fs t ≡ false = ground (arith, v.unused t, v.buried t) in
      record {
        zombies =
            subst (λ p. IsChain (next_of k'.sched) p zs) (sym r.zombies)
              (IsChain-absent (next_of k.sched) (next_of k'.sched) _ t zs v.zombies_distinct.0
                (λ y ne. ap (λ u. u.next) (r.slots.others y ne)) v.zombies.1);
        free = (
          r.free,
          subst (λ p. IsChain (next_of k'.sched) p fs) (sym r.next)
              (IsChain-absent (next_of k.sched) (next_of k'.sched) _ t fs out
                (λ y ne. ap (λ u. u.next) (r.slots.others y ne)) v.free),
        );
        zombies_distinct = v.zombies_distinct.1;
        free_distinct = (out, v.free_distinct);
        buried = λ y m. ground (
          arith,
          v.zombies_distinct.0,
          r.slots.others y (λ q. ground (arith, ap (contains zs) q)),
          v.buried y,
        );
        unused = λ y m. elim (Bool-cases (t == y)) [
          | inl e ↦
              let at : t ≡ y = ground arith in
              subst (λ j. is_unused (state_of k'.sched j) ≡ true) at (ap is_unused r.state)
          | inr e ↦ ground (arith, r.slots.others y (λ q. ground arith), v.unused y)
        ];
        inside = λ y dead. v.inside y (still y dead);
        slots = λ y m. elim (Bool-cases (t == y)) [
          | inl e ↦ ground (arith, v.inside t, v.buried t)
          | inr e ↦ v.slots y (ground arith)
        ];
      }
    where
      still :
          (y : ℕ) → is_zombie (state_of k'.sched y) ≡ true → is_zombie (state_of k.sched y) ≡ true
      still y dead = elim (Bool-cases (y == t)) [
        | inl e ↦ let at : y ≡ t = ground arith in rw at (ground (arith, v.buried t))
        | inr e ↦ ground (arith, r.slots.others y (λ q. ground arith))
      ]

-- What a collection of the zombies `zs` leaves.
pub record Collected {H : Type 0} (alloc : Allocator H) (base : ℕ) (k k' : Kernel H)
    (ys zs fs : List ℕ) : Type 0 where
  pub pooled : Pooled base k'.sched ys [] (reverse_onto zs fs)
  pub heap : k'.heap ≡ free_all alloc (stack_of k.sched) k.heap zs
  pub count : k'.sched.count ≡ k.sched.count - length zs
  pub others : (t : ℕ) → contains zs t ≡ false → k'.sched.task_of t ≡ k.sched.task_of t
  pub words : k'.words ≡ k.words

free_all-agree :
    {H : Type 0} (alloc : Allocator H) (f g : ℕ → Option ℕ) (h : H) (zs : List ℕ)
    → ((t : ℕ) → contains zs t ≡ true → f t ≡ g t)
    → free_all alloc f h zs ≡ free_all alloc g h zs
free_all-agree alloc f g h [] e = refl
free_all-agree alloc f g h (x ∷ zs) e =
    ap (λ p. free_all alloc f (free_one alloc h p) zs) (e x (ground arith))
    ∙ free_all-agree alloc f g (free_one alloc h (g x)) zs (λ t m. e t (ground arith))

module _ {H : Type 0} (alloc : Allocator H) where
  collect-Collected :
      (base fuel : ℕ) (k : Kernel H) (ys zs fs : List ℕ)
      → Pooled base k.sched ys zs fs
      → length zs ≤ fuel
      → Collected alloc base k (collect alloc fuel k k.sched.zombie_list) ys zs fs
  unfolding collect
  collect-Collected base zero k ys (x ∷ zs) fs v f = absurd (omega arith)
  collect-Collected base zero k ys [] fs v f = record {
    pooled = v;
    heap = refl;
    count = omega arith;
    others = λ t m. refl;
    words = refl;
  }
  collect-Collected base (suc fuel) k ys [] fs v f =
      subst (λ p. Collected alloc base k (collect alloc (suc fuel) k p) ys [] fs)
        (sym v.pool.zombies)
        (record {
          pooled = v;
          heap = refl;
          count = omega arith;
          others = λ t m. refl;
          words = refl;
        })
  collect-Collected base (suc fuel) k ys (x ∷ zs) fs v f =
      let k' = reclaim alloc k x in
      let r =
        reclaim-Reclaimed alloc k x (stack_of k.sched x) refl (v.pool.buried x (ground arith)) in
      let pooled : Pooled base k'.sched ys zs (x ∷ fs) = record {
        valid = Slots-IsValid base x k.sched k'.sched r.slots ys v.valid;
        pool = reclaim-IsPool alloc k k' x zs fs v.pool r;
        named = Slots-IsNamed base x k.sched k'.sched r.slots v.named;
      } in
      let c = collect-Collected base fuel k' ys zs (x ∷ fs) pooled (omega arith) in
      let apart : (t : ℕ) → contains zs t ≡ true → t ≢ x =
        λ t m q. ground (arith, v.pool.zombies_distinct.0, ap (contains zs) q) in
      subst (λ p. Collected alloc base k (collect alloc (suc fuel) k p) ys (x ∷ zs) fs)
        (sym v.pool.zombies.0)
        (record {
          pooled = c.pooled;
          heap =
              c.heap
              ∙ (free_all-agree alloc (stack_of k'.sched) (stack_of k.sched) k'.heap zs
                    (λ t m. ap (λ u. u.stack_ptr) (r.slots.others t (apart t m)))
                  ∙ ap (λ h. free_all alloc (stack_of k.sched) h zs) r.heap);
          count = omega (arith, c.count, r.count);
          others = λ t m.
              c.others t (ground arith)
              ∙ r.slots.others t (λ q. ground (arith, ap (contains (x ∷ zs)) q));
          words = c.words ∙ r.words;
        })

  -- When scheduler, pool and IDs agree, `task_garbage_collection` empties the zombie list and puts
  -- the slots on the free list, frees exactly their stacks that are of the heap, takes them off the
  -- count, changes no other task, and keeps that agreement.
  pub task_garbage_collection-Collected :
      (base : ℕ) (k : Kernel H) (ys zs fs : List ℕ)
      → Pooled base k.sched ys zs fs
      → Collected alloc base k (task_garbage_collection alloc k) ys zs fs
  unfolding task_garbage_collection
  task_garbage_collection-Collected base k ys zs fs v =
      collect-Collected base max_tasks k ys zs fs v (
        pigeonhole max_tasks zs v.pool.zombies_distinct
          (λ t m. v.pool.inside t (v.pool.buried t m)))
