-- ===== src/Mutex/Owner.antt =====
-- kernel/src/mutex.c: the greatest weight among the waiters, and boosts of the owner's weight.
use so_rtos.Base.{
  ℕ, zero, suc, ◌≡◌, ◌≢◌, ◌≤◌, refl, ◌==◌, arith, true, false, Option, List, [], ◌∷◌, Bool-cases,
  inl, inr, ap, subst, ◌∙◌, ltb, if◌then◌else◌,
}
use so_rtos.Chain.{length, contains, IsChain}
use so_rtos.Task.{Task}
use so_rtos.Sched.{Sched, modify}
use so_rtos.Sched.Weight.{task_boost_weight}
use so_rtos.Sched.Invariant.{state_of}
use so_rtos.Sched.Invariant.Touch.{modify-IsValid}
use so_rtos.WaitList.{Waiters, next_in}
use so_rtos.WaitList.Wake.{IsWakeable, Waiting}
use so_rtos.Mutex.{max_weight_from, boost_to}

abbrev pub weight_of : Sched → ℕ → ℕ
weight_of s t = (s.task_of t).weight

-- `_get_max_waiter_weight` is at least the weight of each waiter.
pub max_weight_from-max :
    (fuel : ℕ) (s : Sched) (m : ℕ) (p : Option ℕ) (xs : List ℕ)
    → IsChain (next_in s.nodes) p xs
    → ((t : ℕ) → contains xs t ≡ true → (s.nodes t).task ≡ t)
    → length xs ≤ fuel
    → (m ≤ max_weight_from fuel s m p)
      × ((t : ℕ) → contains xs t ≡ true → weight_of s t ≤ max_weight_from fuel s m p)
unfolding max_weight_from
max_weight_from-max zero s m p [] c o f = (omega arith, λ t h. cc)
max_weight_from-max zero s m p (x ∷ xs) c o f = absurd (omega arith)
max_weight_from-max (suc fuel) s m p [] c o f =
    rw (ap (max_weight_from (suc fuel) s m) c) (omega arith, λ t h. cc)
max_weight_from-max (suc fuel) s m p (x ∷ xs) c o f =
    let own : (s.nodes x).task ≡ x = o x (ground arith) in
    let w = weight_of s x in
    let m' = if ltb m w then w else m in
    let step : max_weight_from (suc fuel) s m p ≡ max_weight_from fuel s m' (next_in s.nodes x) =
      ap (max_weight_from (suc fuel) s m) c.0
      ∙ ap
          (λ k.
            max_weight_from fuel s (if ltb m (weight_of s k) then weight_of s k else m)
              (next_in s.nodes x))
          own in
    let (grows, all) =
      max_weight_from-max fuel s m' (next_in s.nodes x) xs c.1 (λ t h. o t (ground arith))
        (omega arith) in
    let bounds : (m ≤ m') × (w ≤ m') = (ground arith, ground arith) in
    rw step (
      omega (arith, grows, bounds.0),
      λ t h. elim (Bool-cases (x == t)) [
        | inl e ↦
            let at : x ≡ t = ground arith in
            subst (λ k. weight_of s k ≤ max_weight_from fuel s m' (next_in s.nodes x)) at
              (omega (arith, grows, bounds.1))
        | inr e ↦ all t (ground arith)
      ],
    )

-- A change of weights only.
abbrev pub set_weight : ℕ → Task → Task
set_weight w t = record t { weight = w }

pub set_weight-Waiting :
    (base : ℕ) (s : Sched) (ys : List ℕ) (w : Waiters) (xs : List ℕ) (t k : ℕ)
    → Waiting base s ys w xs
    → Waiting base (modify s t (set_weight k)) ys w xs
set_weight-Waiting base s ys w xs t k v = record {
  valid = modify-IsValid base s ys t (set_weight k) refl refl refl refl refl v.valid;
  list = v.list;
  blocked = λ c m. ground (arith, v.blocked c);
  wakeable = λ c m. ground (arith, v.wakeable c);
}

-- What a boost of `t` to the weight `k` leaves.
pub record Boosted (base : ℕ) (s s' : Sched) (ys : List ℕ) (w : Waiters) (xs : List ℕ) (t k : ℕ)
    : Type 0 where
  pub still : Waiting base s' ys w xs
  pub nodes : s'.nodes ≡ s.nodes
  pub states : (c : ℕ) → state_of s' c ≡ state_of s c
  pub wakes : (c : ℕ) → IsWakeable s c → IsWakeable s' c
  pub own : k ≤ weight_of s' t
  pub others : (c : ℕ) → c ≢ t → weight_of s' c ≡ weight_of s c

pub boost_to-Boosted :
    (base : ℕ) (s : Sched) (ys : List ℕ) (w : Waiters) (xs : List ℕ) (t k : ℕ)
    → Waiting base s ys w xs
    → Boosted base s (boost_to s t k) ys w xs t k
unfolding task_boost_weight
boost_to-Boosted base s ys w xs t k v = elim (Bool-cases (ltb (weight_of s t) k)) [
  | inl e ↦
      let positive : (k == 0) ≡ false = ground arith in
      rw (e, positive, e)
        (record {
          still = set_weight-Waiting base s ys w xs t k v;
          nodes = refl;
          states = λ c. ground arith;
          wakes = λ c h. ground (arith, h);
          own = ground arith;
          others = λ c n. ground arith;
        })
  | inr e ↦ rw e (record {
    still = v;
    nodes = refl;
    states = λ c. refl;
    wakes = λ c h. h;
    own = ground arith;
    others = λ c n. refl;
  })
]
