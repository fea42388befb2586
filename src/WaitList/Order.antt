-- ===== src/WaitList/Order.antt =====
-- kernel/src/queue.c: the wait list is first in, first out. (The same functions stand in
-- kernel/src/mutex.c and kernel/src/semaphore.c.)
use so_rtos.Base.{
  if◌then◌else◌, ℕ, ◌≡◌, ◌≢◌, ◌<◌, ◌≤◌, refl, ◌==◌, arith, true, false, Option, none, some, List,
  [], ◌∷◌, ◌++◌, ap, sym, is_null, ◌∙◌,
}
use so_rtos.Chain.{
  length, length-append, contains, head?, get_last?, IsDistinct, IsChain, append-IsDistinct,
}
use so_rtos.Task.{WaitNode, max_tasks}
use so_rtos.WaitList.{
  Waiters, set_link, next_in, append_behind, add_to_wait_list, pop_at, pop_from_wait_list,
}

-- The list holds exactly the nodes `xs`, in this order; each names its own task.
pub record IsWaitList (nodes : ℕ → WaitNode) (w : Waiters) (xs : List ℕ) : Type 0 where
  pub chain : IsChain (next_in nodes) w.head xs
  pub tail : w.tail ≡ get_last? xs
  pub distinct : IsDistinct xs
  pub short : length xs ≤ max_tasks
  pub owned : (t : ℕ) → contains xs t ≡ true → (nodes t).task ≡ t

-- The waiters but for the first.
abbrev pub drop_first : List ℕ → List ℕ
drop_first [] = []
drop_first (x ∷ xs) = xs

get_last?-null : (x : ℕ) (xs : List ℕ) → is_null (get_last? (x ∷ xs)) ≡ false
get_last?-null x [] = refl
get_last?-null x (y ∷ ys) = get_last?-null y ys

pub get_last?-append : (xs : List ℕ) (t : ℕ) → get_last? (xs ++ t ∷ []) ≡ some t
get_last?-append [] t = refl
get_last?-append (x ∷ []) t = refl
get_last?-append (x ∷ y ∷ xs) t = get_last?-append (y ∷ xs) t

pub contains-append_one :
    (xs : List ℕ) (t k : ℕ)
    → contains (xs ++ t ∷ []) k ≡ true
    → (t == k) ≡ false
    → contains xs k ≡ true
contains-append_one [] t k h n = ground arith
contains-append_one (x ∷ xs) t k h n = ground (arith, contains-append_one xs t k)

pub get_last?-contains : (xs : List ℕ) (k : ℕ) → get_last? xs ≡ some k → contains xs k ≡ true
get_last?-contains [] k h = cc
get_last?-contains (x ∷ []) k h = ground arith
get_last?-contains (x ∷ y ∷ xs) k h = ground (arith, get_last?-contains (y ∷ xs) k)

-- `_pop_from_wait_list` on a well formed list returns the task that waits longest, or NULL, and
-- leaves the others in their order.
pub pop_from_wait_list-IsWaitList :
    (nodes : ℕ → WaitNode) (w : Waiters) (xs : List ℕ)
    → IsWaitList nodes w xs
    → ((pop_from_wait_list nodes w).0 ≡ head? xs)
      × IsWaitList nodes (pop_from_wait_list nodes w).1 (drop_first xs)
unfolding pop_from_wait_list
pop_from_wait_list-IsWaitList nodes w [] v = rw (ap (pop_at nodes w) v.chain) (refl, v)
pop_from_wait_list-IsWaitList nodes w (x ∷ xs) v = rw (ap (pop_at nodes w) v.chain.0) (
  ap some (v.owned x (ground arith)),
  record {
    chain = v.chain.1;
    tail = left xs v.chain.1 v.tail;
    distinct = v.distinct.1;
    short = omega (arith, v.short);
    owned = λ t h. v.owned t (ground arith);
  },
)
  where
    left :
        (ys : List ℕ)
        → IsChain (next_in nodes) (next_in nodes x) ys
        → w.tail ≡ get_last? (x ∷ ys)
        → (if is_null (next_in nodes x) then none else w.tail) ≡ get_last? ys
    left [] c e = ground (arith, c)
    left (y ∷ ys) c e = ground (arith, c.0, e)

append-IsChain :
    (f g : ℕ → Option ℕ) (p : Option ℕ) (x : ℕ) (xs : List ℕ) (t l : ℕ)
    → IsChain f p (x ∷ xs)
    → IsDistinct (x ∷ xs)
    → get_last? (x ∷ xs) ≡ some l
    → g l ≡ some t
    → g t ≡ none
    → ((y : ℕ) → contains (x ∷ xs) y ≡ true → y ≢ l → g y ≡ f y)
    → IsChain g p (x ∷ xs ++ t ∷ [])
append-IsChain f g p x [] t l c d last here end others = (c.0, (ground arith, ground arith))
append-IsChain f g p x (y ∷ ys) t l c d last here end others =
    let ne : x ≢ l =
      λ e. ground (arith, get_last?-contains (y ∷ ys) l last, d.0, ap (contains (y ∷ ys)) e) in
    let same : g x ≡ f x = others x (ground arith) ne in
    (
      c.0,
      rw same (
          append-IsChain f g (f x) y ys t l c.1 d.1 last here end
            (λ z m n. others z (ground arith) n)),
    )

-- `_add_to_wait_list` on a well formed list with room puts a node that is not on it, and names its
-- own task, at the end.
pub add_to_wait_list-IsWaitList :
    (nodes : ℕ → WaitNode) (w : Waiters) (xs : List ℕ) (t : ℕ)
    → IsWaitList nodes w xs
    → contains xs t ≡ false
    → (nodes t).task ≡ t
    → length xs < max_tasks
    → let (nodes', w') = add_to_wait_list nodes w t in IsWaitList nodes' w' (xs ++ t ∷ [])
unfolding add_to_wait_list
add_to_wait_list-IsWaitList nodes w [] t v out own room =
    rw (ap (append_behind (set_link nodes t none) w t) v.tail) (record {
      chain = (refl, ground arith);
      tail = refl;
      distinct = ground arith;
      short = omega arith;
      owned = λ k h. ground arith;
    })
add_to_wait_list-IsWaitList nodes w (x ∷ xs) t v out own room = by_last (get_last? (x ∷ xs)) refl
  where
    by_last :
        (p : Option ℕ)
        → get_last? (x ∷ xs) ≡ p
        → let (nodes', w') = add_to_wait_list nodes w t in IsWaitList nodes' w' (x ∷ xs ++ t ∷ [])
    by_last none e = absurd (ground (arith, get_last?-null x xs))
    by_last (some l) e =
        let behind : l ≢ t =
          λ q. ground (arith, get_last?-contains (x ∷ xs) l e, ap (contains (x ∷ xs)) q) in
        let apart : (y : ℕ) → contains (x ∷ xs) y ≡ true → y ≢ t =
          λ y m q. ground (arith, ap (contains (x ∷ xs)) q) in
        rw (ap (append_behind (set_link nodes t none) w t) (v.tail ∙ e)) (record {
          chain =
              append-IsChain (next_in nodes) _ w.head x xs t l v.chain v.distinct e (ground arith)
                (ground arith) (λ y m n. ground (arith, apart y m));
          tail = sym (get_last?-append (x ∷ xs) t);
          distinct = append-IsDistinct (x ∷ xs) t out v.distinct;
          short = omega (arith, length-append (x ∷ xs) t);
          owned = λ k h. ground (arith, v.owned k, contains-append_one (x ∷ xs) t k h);
        })
