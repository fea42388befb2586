-- ===== src/Chain.antt =====
-- Singly linked lists of tasks: the addresses that the links spell out from a head pointer.
use so_rtos.Base.{
  ℕ, suc, ◌≡◌, ◌≢◌, refl, ◌==◌, ◌≤◌, arith, Bool, true, false, ◌||◌, if◌then◌else◌, Option, none,
  some, List, [], ◌∷◌, ◌++◌, Bool-cases, inl, inr, ap, sym, subst,
}

abbrev pub length : List ℕ → ℕ
length [] = 0
length (x ∷ xs) = suc (length xs)

abbrev pub head? : List ℕ → Option ℕ
head? [] = none
head? (x ∷ xs) = some x

abbrev pub get_last? : List ℕ → Option ℕ
get_last? [] = none
get_last? (x ∷ []) = some x
get_last? (x ∷ y ∷ xs) = get_last? (y ∷ xs)

abbrev pub contains : List ℕ → ℕ → Bool
contains [] t = false
contains (x ∷ xs) t = x == t || contains xs t

-- The list without the first `t`.
abbrev pub erase : ℕ → List ℕ → List ℕ
erase t [] = []
erase t (x ∷ xs) = if x == t then xs else x ∷ erase t xs

abbrev pub IsDistinct : List ℕ → Type 0
IsDistinct [] = Unit {0}
IsDistinct (x ∷ xs) = (contains xs x ≡ false) × IsDistinct xs

abbrev pub All : (ℕ → Type 0) → List ℕ → Type 0
All P [] = Unit {0}
All P (x ∷ xs) = P x × All P xs

-- From the pointer `p` the links `next` lead through exactly `xs`, and then to NULL.
abbrev pub IsChain : (ℕ → Option ℕ) → Option ℕ → List ℕ → Type 0
IsChain next p [] = p ≡ none
IsChain next p (x ∷ xs) = (p ≡ some x) × IsChain next (next x) xs

pub head?-IsChain :
    (next : ℕ → Option ℕ) (p : Option ℕ) (xs : List ℕ) → IsChain next p xs → p ≡ head? xs
head?-IsChain next p [] c = c
head?-IsChain next p (x ∷ xs) c = c.0

-- A chain stands while the links of its own nodes do.
pub IsChain-agree :
    (f g : ℕ → Option ℕ) (p : Option ℕ) (xs : List ℕ)
    → ((y : ℕ) → contains xs y ≡ true → g y ≡ f y)
    → IsChain f p xs
    → IsChain g p xs
IsChain-agree f g p [] h c = c
IsChain-agree f g p (x ∷ xs) h c =
    let same : g x ≡ f x = h x (ground arith) in
    (c.0, rw same (IsChain-agree f g (f x) xs (λ y m. h y (ground arith)) c.1))

pub IsChain-absent :
    (f g : ℕ → Option ℕ) (p : Option ℕ) (t : ℕ) (xs : List ℕ)
    → contains xs t ≡ false
    → ((y : ℕ) → y ≢ t → g y ≡ f y)
    → IsChain f p xs
    → IsChain g p xs
IsChain-absent f g p t xs out h =
    IsChain-agree f g p xs (λ y m. h y (λ e. ground (arith, ap (contains xs) e)))

pub contains-append :
    (xs ys : List ℕ) (t : ℕ) → contains (xs ++ ys) t ≡ (contains xs t || contains ys t)
contains-append [] ys t = refl
contains-append (x ∷ xs) ys t = ground (arith, contains-append xs ys t)

pub contains-erase :
    (t y : ℕ) (xs : List ℕ)
    → IsDistinct xs
    → contains (erase t xs) y ≡ (if y == t then false else contains xs y)
contains-erase t y [] d = ground arith
contains-erase t y (x ∷ xs) d = ground (arith, contains-erase t y xs d.1, d.0, ap (contains xs))

pub erase-IsDistinct : (t : ℕ) (xs : List ℕ) → IsDistinct xs → IsDistinct (erase t xs)
erase-IsDistinct t [] d = tt
erase-IsDistinct t (x ∷ xs) d = ground (arith, erase-IsDistinct t xs d.1, contains-erase t x xs d.1)

pub erase_absent : (t : ℕ) (xs : List ℕ) → contains xs t ≡ false → erase t xs ≡ xs
erase_absent t [] h = refl
erase_absent t (x ∷ xs) h = ground (arith, erase_absent t xs)

pub append-IsDistinct :
    (xs : List ℕ) (t : ℕ) → contains xs t ≡ false → IsDistinct xs → IsDistinct (xs ++ t ∷ [])
append-IsDistinct [] t h d = ground arith
append-IsDistinct (x ∷ xs) t h d =
    ground (arith, append-IsDistinct xs t, contains-append xs (t ∷ []) x)

pub length-erase :
    (t : ℕ) (xs : List ℕ) → contains xs t ≡ true → suc (length (erase t xs)) ≡ length xs
length-erase t [] h = cc
length-erase t (x ∷ xs) h = ground (arith, length-erase t xs)

All_of_contains : (P : ℕ → Type 0) (t : ℕ) (xs : List ℕ) → contains xs t ≡ true → All P xs → P t
All_of_contains P t [] h a = cc
All_of_contains P t (x ∷ xs) h a = elim (Bool-cases (x == t)) [
  | inl e ↦ let same : x ≡ t = ground arith in rw same at a.0
  | inr e ↦ All_of_contains P t xs (ground arith) a.1
]

pub length-erase-le : (t : ℕ) (xs : List ℕ) → length (erase t xs) ≤ length xs
length-erase-le t [] = omega arith
length-erase-le t (x ∷ xs) = ground (arith, length-erase-le t xs)

pub IsChain-cons :
    (next : ℕ → Option ℕ) (t : ℕ) (p : Option ℕ) (xs : List ℕ)
    → next t ≡ p
    → IsChain next p xs
    → IsChain next (some t) (t ∷ xs)
IsChain-cons next t p xs e c = (refl, subst (λ q. IsChain next q xs) (sym e) c)

pub length-append : (xs : List ℕ) (t : ℕ) → length (xs ++ t ∷ []) ≡ suc (length xs)
length-append [] t = refl
length-append (x ∷ xs) t = ap suc (length-append xs t)
