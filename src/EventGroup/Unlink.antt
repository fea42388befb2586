-- ===== src/EventGroup/Unlink.antt =====
-- kernel/src/event_group.c: a node in the middle of a wait list is taken out by the node before it.
use so_rtos.Base.{
  ℕ, zero, suc, ◌≡◌, ◌<◌, ◌+◌, refl, ◌==◌, arith, true, false, Option, none, some, List, [], ◌∷◌,
  ◌++◌, ap, subst, ◌∙◌, if_false, if_true,
}
use so_rtos.Chain.{length, contains, erase, head?, get_last?, IsDistinct, IsChain, head?-IsChain}
use so_rtos.Task.{WaitNode, max_tasks}
use so_rtos.WaitList.{Waiters, next_in, find_waiter, unlink_waiter, remove_task_from_list}
use so_rtos.WaitList.Order.{IsWaitList}
use so_rtos.WaitList.Remove.{remove_task_from_list-IsWaitList}

pub middle-IsDistinct :
    (front : List ℕ) (x : ℕ) (xs : List ℕ)
    → IsDistinct (front ++ x ∷ xs)
    → (contains front x ≡ false) × (contains xs x ≡ false)
middle-IsDistinct [] x xs d = (refl, d.0)
middle-IsDistinct (y ∷ front) x xs d =
    ground (arith, middle-IsDistinct front x xs d.1, contains-middle front x xs)
  where
    contains-middle : (front : List ℕ) (x : ℕ) (xs : List ℕ) → contains (front ++ x ∷ xs) x ≡ true
    contains-middle [] x xs = ground arith
    contains-middle (z ∷ front) x xs = ground (arith, contains-middle front x xs)

pub erase-middle :
    (front : List ℕ) (x : ℕ) (xs : List ℕ)
    → contains front x ≡ false
    → erase x (front ++ x ∷ xs) ≡ front ++ xs
erase-middle [] x xs h = ground arith
erase-middle (y ∷ front) x xs h = ground (arith, erase-middle front x xs)

pub next-middle :
    (next : ℕ → Option ℕ) (p : Option ℕ) (front : List ℕ) (x : ℕ) (xs : List ℕ)
    → IsChain next p (front ++ x ∷ xs)
    → next x ≡ head? xs
next-middle next p [] x xs c = head?-IsChain next (next x) xs c.1
next-middle next p (y ∷ front) x xs c = next-middle next (next y) front x xs c.1

-- The last of the list, or the pointer before it.
abbrev last_or : Option ℕ → List ℕ → Option ℕ
last_or prev [] = prev
last_or prev (x ∷ xs) = last_or (some x) xs

last_or-get_last? : (xs : List ℕ) (x : ℕ) → last_or (some x) xs ≡ get_last? (x ∷ xs)
last_or-get_last? [] x = refl
last_or-get_last? (y ∷ xs) x = last_or-get_last? xs y

length-middle :
    (front : List ℕ) (x : ℕ) (xs : List ℕ)
    → length (front ++ x ∷ xs) ≡ suc (length front + length xs)
length-middle [] x xs = omega arith
length-middle (y ∷ front) x xs = omega (arith, length-middle front x xs)

find_waiter-middle :
    (fuel : ℕ) (nodes : ℕ → WaitNode) (prev p : Option ℕ) (front : List ℕ) (x : ℕ) (xs : List ℕ)
    → IsChain (next_in nodes) p (front ++ x ∷ xs)
    → ((t : ℕ) → contains (front ++ x ∷ xs) t ≡ true → (nodes t).task ≡ t)
    → contains front x ≡ false
    → length front < fuel
    → find_waiter fuel nodes x prev p ≡ some (last_or prev front, x)
unfolding find_waiter
find_waiter-middle zero nodes prev p front x xs c own out f = absurd (omega arith)
find_waiter-middle (suc fuel) nodes prev p [] x xs c own out f =
    ap (find_waiter (suc fuel) nodes x prev) c.0
    ∙ if_true _ _ {b = (nodes x).task == x} (ground (arith, own x (ground arith)))
find_waiter-middle (suc fuel) nodes prev p (y ∷ front) x xs c own out f =
    ap (find_waiter (suc fuel) nodes x prev) c.0
    ∙ (if_false _ _ {b = (nodes y).task == x} (ground (arith, own y (ground arith)))
        ∙ find_waiter-middle fuel nodes (some y) (next_in nodes y) front x xs c.1
            (λ t m. own t (ground arith)) (ground arith) (omega arith))

last_or-none : (front : List ℕ) → last_or none front ≡ get_last? front
last_or-none [] = refl
last_or-none (y ∷ front) = last_or-get_last? front y

removes :
    (nodes : ℕ → WaitNode) (w : Waiters) (front : List ℕ) (x : ℕ)
    → find_waiter max_tasks nodes x none w.head ≡ some (last_or none front, x)
    → remove_task_from_list nodes w x ≡ unlink_waiter nodes w (some (get_last? front, x))
unfolding remove_task_from_list
removes nodes w front x e =
    ap (unlink_waiter nodes w) e
    ∙ ap (λ p. unlink_waiter nodes w (some (p, x))) (last_or-none front)

-- A node is taken out of a well formed list by the node before it, with the others in their order.
pub unlink_waiter-IsWaitList :
    (nodes : ℕ → WaitNode) (w : Waiters) (front : List ℕ) (x : ℕ) (xs : List ℕ)
    → IsWaitList nodes w (front ++ x ∷ xs)
    → let (nodes', w') = unlink_waiter nodes w (some (get_last? front, x)) in
      IsWaitList nodes' w' (front ++ xs)
unlink_waiter-IsWaitList nodes w front x xs v =
    let (out, _) = middle-IsDistinct front x xs v.distinct in
    let found =
      find_waiter-middle max_tasks nodes none w.head front x xs v.chain v.owned out
        (omega (arith, v.short, length-middle front x xs)) in
    subst (λ r. IsWaitList r.0 r.1 (front ++ xs)) (removes nodes w front x found)
      (subst (λ l. let (nodes', w') = remove_task_from_list nodes w x in IsWaitList nodes' w' l)
        (erase-middle front x xs out)
        (remove_task_from_list-IsWaitList nodes w (front ++ x ∷ xs) x v))
