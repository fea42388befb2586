-- ===== src/Cli/Edit/Shift.antt =====
-- kernel/src/cli.c: the loops that move characters in the line, and the line as two texts around the
-- cursor.
use so_rtos.Base.{
  ℕ, zero, suc, ◌≡◌, ◌≢◌, ◌≤◌, ◌<◌, refl, arith, ◌&&◌, ◌==◌, ltb, leb, List, [], ◌∷◌, ap, sym, ◌∙◌,
  Bool-cases, inl, inr, ◌+◌, ◌-◌, if◌then◌else◌, update, if_true, if_false, ◌⊎◌,
}
use so_rtos.Chain.{length}
use so_rtos.Cli.Edit.{shift_left, shift_right}

-- The loop that closes a gap moves each of its characters down by one.
pub shift_left-at :
    (count : ℕ) (buffer : ℕ → ℕ) (i j : ℕ)
    → 0 < i
    → shift_left count buffer i j
      ≡ (if leb (i - 1) j && ltb j (i - 1 + count) then buffer (j + 1) else buffer j)
unfolding shift_left
shift_left-at zero buffer i j p = ground arith
shift_left-at (suc count) buffer i j p =
    let rest = shift_left-at count (update buffer (i - 1) (buffer i)) (i + 1) j (omega arith) in
    ground (arith, rest)

pub update-here : (f : ℕ → ℕ) (i j v : ℕ) → j ≡ i → update f i v j ≡ v
update-here f i j v e = if_true v (f j) (ground arith)

pub update-other : (f : ℕ → ℕ) (i j v : ℕ) → j ≢ i → update f i v j ≡ f j
update-other f i j v e = if_false v (f j) (ground arith)

-- The loop that opens a gap of one behind `k` moves each of the `count` characters behind it up by
-- one, and no other.
pub shift_right-outside :
    (count : ℕ) (buffer : ℕ → ℕ) (i k j : ℕ)
    → i ≡ k + count
    → (j ≤ k) ⊎ (i < j)
    → shift_right count buffer i j ≡ buffer j
unfolding shift_right
shift_right-outside zero buffer i k j e out = refl
shift_right-outside (suc count) buffer i k j e (inl low) =
    shift_right-outside count (update buffer i (buffer (i - 1))) (i - 1) k j (omega arith) (inl low)
    ∙ update-other buffer i j (buffer (i - 1)) (λ q. omega arith)
shift_right-outside (suc count) buffer i k j e (inr high) =
    shift_right-outside count (update buffer i (buffer (i - 1))) (i - 1) k j (omega arith)
      (inr (omega arith))
    ∙ update-other buffer i j (buffer (i - 1)) (λ q. omega arith)

pub shift_right-inside :
    (count : ℕ) (buffer : ℕ → ℕ) (i k j : ℕ)
    → i ≡ k + count
    → k < j
    → j ≤ i
    → shift_right count buffer i j ≡ buffer (j - 1)
unfolding shift_right
shift_right-inside zero buffer i k j e low high = absurd (omega arith)
shift_right-inside (suc count) buffer i k j e low high = elim (Bool-cases (j == i)) [
  | inl p ↦
      let q : j ≡ i = ground arith in
      shift_right-outside count (update buffer i (buffer (i - 1))) (i - 1) k j (omega arith)
        (inr (omega arith))
      ∙ (update-here buffer i j (buffer (i - 1)) q ∙ ap (λ n. buffer (n - 1)) (sym q))
  | inr p ↦
      let q : j ≢ i = λ r. ground arith in
      shift_right-inside count (update buffer i (buffer (i - 1))) (i - 1) k j (omega arith) low
        (ground (arith, q))
      ∙ update-other buffer i (j - 1) (buffer (i - 1)) (λ r. omega (arith, q))
]

-- The characters behind an index, and those before one, the nearest first.
abbrev pub chars : ℕ → (ℕ → ℕ) → ℕ → List ℕ
chars zero buffer i = []
chars (suc count) buffer i = buffer i ∷ chars count buffer (i + 1)

abbrev pub chars_before : (ℕ → ℕ) → ℕ → List ℕ
chars_before buffer zero = []
chars_before buffer (suc i) = buffer i ∷ chars_before buffer i

pub chars-agree :
    (count : ℕ) (f g : ℕ → ℕ) (i k : ℕ)
    → ((j : ℕ) → j < count → f (i + j) ≡ g (k + j))
    → chars count f i ≡ chars count g k
chars-agree zero f g i k e = refl
chars-agree (suc count) f g i k e =
    let head : f i ≡ g k = ap f (omega arith) ∙ (e 0 (omega arith) ∙ ap g (omega arith)) in
    ap (λ c. c ∷ chars count f (i + 1)) head
    ∙ ap (◌∷◌ (g k)) (
        chars-agree count f g (i + 1) (k + 1)
          (λ j p. ap f (omega arith) ∙ (e (suc j) (omega arith) ∙ ap g (omega arith))))

pub chars_before-agree :
    (i : ℕ) (f g : ℕ → ℕ) → ((j : ℕ) → j < i → f j ≡ g j) → chars_before f i ≡ chars_before g i
chars_before-agree zero f g e = refl
chars_before-agree (suc i) f g e =
    ap (λ c. c ∷ chars_before f i) (e i (omega arith))
    ∙ ap (◌∷◌ (g i)) (chars_before-agree i f g (λ j p. e j (omega arith)))

pub length-chars : (count : ℕ) (f : ℕ → ℕ) (i : ℕ) → length (chars count f i) ≡ count
length-chars zero f i = refl
length-chars (suc count) f i = ap suc (length-chars count f (i + 1))

pub length-chars_before : (f : ℕ → ℕ) (i : ℕ) → length (chars_before f i) ≡ i
length-chars_before f zero = refl
length-chars_before f (suc i) = ap suc (length-chars_before f i)
