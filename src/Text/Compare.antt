-- ===== src/Text/Compare.antt =====
-- kernel/src/utils.c: comparing texts, and polling.
use so_rtos.Base.{
  ℕ, zero, suc, ◌≡◌, ◌≤◌, ◌<◌, refl, arith, Bool, true, ◌==◌, List, [], ◌∷◌, ap, sym, ◌∙◌,
  Bool-cases, inl, inr, if_false, ◌+◌, ◌↔◌, some,
}
use so_rtos.Chain.{length, All}
use so_rtos.Text.{utils_strcmp, same_text, strlen_loop, utils_strlen, poll}

-- The characters of a C string are not NUL.
abbrev pub IsText : List ℕ → Type 0
IsText = All (λ c. 0 < c)

same_text-equal : (s t : List ℕ) → IsText s → IsText t → same_text s t ≡ true → s ≡ t
unfolding utils_strcmp
same_text-equal [] [] p q h = refl
same_text-equal [] (d ∷ t) p q h = absurd (ground (arith, q.0))
same_text-equal (c ∷ s) [] p q h = absurd (ground (arith, p.0))
same_text-equal (c ∷ s) (d ∷ t) p q h = elim (Bool-cases (c == d)) [
  | inl e ↦ ground (arith, same_text-equal s t p.1 q.1)
  | inr e ↦ absurd (ground arith)
]

pub same_text_refl : (s : List ℕ) → same_text s s ≡ true
unfolding utils_strcmp
same_text_refl [] = refl
same_text_refl (c ∷ s) = ground (arith, same_text_refl s)

-- `utils_strcmp` of two texts is 0 exactly if they are the same.
pub utils_strcmp-same : (s t : List ℕ) → IsText s → IsText t → (same_text s t ≡ true) ↔ (s ≡ t)
utils_strcmp-same s t p q =
    (same_text-equal s t p q, λ e. ap (same_text s) (sym e) ∙ same_text_refl s)

strlen_loop-length : (s : List ℕ) (n : ℕ) → strlen_loop s n ≡ n + length s
unfolding strlen_loop
strlen_loop-length [] n = omega arith
strlen_loop-length (c ∷ s) n = omega (arith, strlen_loop-length s (n + 1))

-- `utils_strlen` is the number of characters before the NUL.
pub utils_strlen-length : (s : List ℕ) → utils_strlen (some s) ≡ length s
unfolding utils_strlen
utils_strlen-length s = omega (arith, strlen_loop-length s 0)

-- A poll that ends with 0 has found what it waits for at one of the looks that the timeout allows.
pub poll-finds :
    (done : ℕ → Bool) (reg : ℕ → ℕ) (i look : ℕ)
    → poll done reg i look ≡ true
    → (k : ℕ) × (k ≤ i) × (done (reg (look + k)) ≡ true)
unfolding poll
poll-finds done reg zero look h = (0, omega arith, ap (λ n. done (reg n)) (omega arith) ∙ h)
poll-finds done reg (suc i) look h = elim (Bool-cases (done (reg look))) [
  | inl e ↦ (0, omega arith, ap (λ n. done (reg n)) (omega arith) ∙ e)
  | inr e ↦
      let (k, low, found) = poll-finds done reg i (look + 1) (sym (if_false _ _ e) ∙ h) in
      (suc k, omega arith, ap (λ n. done (reg n)) (omega arith) ∙ found)
]
