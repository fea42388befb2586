-- ===== src/Text/Digits.antt =====
-- kernel/src/utils.c and kernel/src/cli.c: decimal digits.
use so_rtos.Base.{ℕ, ◌≡◌, refl, true, List, [], ◌∷◌, ◌++◌, ap, sym, ◌∙◌, if_true, ◌+◌, ◌*◌, ◌-◌}
use so_rtos.Chain.{All}
use so_rtos.Text.{is_digit, atoi_loop}

abbrev pub IsDecimal : List ℕ → Type 0
IsDecimal = All (λ c. is_digit c ≡ true)

-- One more digit behind a text of digits.
pub atoi_loop-digit :
    (res : ℕ) (s : List ℕ) (d : ℕ)
    → IsDecimal s
    → is_digit d ≡ true
    → atoi_loop res (s ++ d ∷ []) ≡ atoi_loop res s * 10 + (d - 48)
unfolding atoi_loop
atoi_loop-digit res [] d p q = rw q refl
atoi_loop-digit res (c ∷ s) d p q =
    if_true _ _ p.0
    ∙ (atoi_loop-digit (res * 10 + (c - 48)) s d p.1 q
        ∙ ap (λ n. n * 10 + (d - 48)) (sym (if_true _ _ p.0)))
