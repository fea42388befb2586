-- ===== src/Cli/Numbers.antt =====
-- kernel/src/cli.c and kernel/src/utils.c: numbers as `cli_printf` writes them and `utils_atoi` reads
-- them.
use so_rtos.Base.{
  ℕ, zero, suc, ◌≡◌, ◌≤◌, ◌<◌, refl, arith, true, false, List, [], ◌∷◌, ◌++◌, ◌∙◌, ap, sym, subst,
  Bool-cases, inl, inr, if_true, if_false, ◌+◌, ◌*◌, ◌-◌, ◌/◌, ◌%◌, ◌^◌, ltb, leb,
}
use native.Mathlib.Numerals.{unary_clauses}
use so_rtos.Chain.{length, length-append}
use so_rtos.Text.{is_digit, atoi_loop, utils_atoi}
use so_rtos.Text.Digits.{IsDecimal, atoi_loop-digit}
use so_rtos.Cli.{
  cli_max_line_len, put, put_pad, digits_of, put_digits, cli_fmt_int, Arg, Printed, go_on,
  cli_printf,
}

append-IsDecimal : (s : List ℕ) (d : ℕ) → IsDecimal s → is_digit d ≡ true → IsDecimal (s ++ d ∷ [])
append-IsDecimal [] d p q = (q, tt)
append-IsDecimal (c ∷ s) d p q = (p.0, append-IsDecimal s d p.1 q)

pow_step : (n : ℕ) → 10 ^ suc n ≡ 10 * 10 ^ n
pow_step n = simp unary_clauses (omega arith)

-- The text is the decimal of the number, with at most `room` digits.
abbrev Spells : ℕ → ℕ → List ℕ → Type 0
Spells val room s = (atoi_loop 0 s ≡ val) × IsDecimal s × (length s ≤ room)

Spells-digit :
    (max room val : ℕ) (s : List ℕ) (d : ℕ)
    → Spells (val / 10) room s
    → room + 1 < max
    → d ≡ 48 + val % 10
    → Spells val (suc room) (put max s d)
Spells-digit max room val s d (value, decimal, small) fit e =
    let digit : is_digit d ≡ true = ground arith in
    rw (if_true (s ++ d ∷ []) s {b = ltb (length s) (max - 1)} (ground arith)) (
      omega (arith, atoi_loop-digit 0 s d decimal digit),
      append-IsDecimal s d decimal digit,
      omega (arith, length-append s d),
    )

digits_of-Spells :
    (max room val : ℕ)
    → val < 10 ^ room
    → room < max
    → Spells val room (put_digits max [] (digits_of room val 10))
unfolding digits_of put_digits atoi_loop
digits_of-Spells max zero val small fit = (omega arith, tt, omega arith)
digits_of-Spells max (suc room) val small fit =
    let rest = digits_of-Spells max room (val / 10) (omega (arith, pow_step room)) (omega arith) in
    elim (Bool-cases (ltb 0 (val / 10))) [
      | inl e ↦ rw e (Spells-digit max room val _ _ rest (omega arith) (ground arith))
      | inr e ↦ rw e (
          Spells-digit max room val [] _ (ground arith, tt, omega arith) (omega arith)
            (ground arith))
    ]

plain-Spells :
    (max val pad : ℕ)
    → val < 10 ^ 24
    → 24 < max
    → Spells val 24 (cli_fmt_int [] max val 0 pad 10 false false)
unfolding cli_fmt_int put_pad
plain-Spells max val pad small fit =
    let digits = digits_of 24 val 10 in
    let none_left : 0 - (length digits + 0) ≡ 0 = omega arith in
    subst (λ p. Spells val 24 (put_digits max (put_pad p max [] pad) digits)) (sym none_left)
      (digits_of-Spells max 24 val small fit)

go_on-complete :
    (behind : List (List ℕ)) (s : List ℕ) → go_on behind (Printed.complete s) ≡ Printed.complete s
unfolding go_on
go_on-complete [] s = refl
go_on-complete (part ∷ behind) s = refl

-- A number that fits an `int` is read back by `utils_atoi` from what `cli_printf` writes for it with
-- `%u`, and so it is with `%d`.
pub utils_atoi-cli_printf :
    (n : ℕ) (behind : List (List ℕ))
    → n < 2 ^ 31
    → ((s : List ℕ) × (cli_printf (37 ∷ 117 ∷ []) behind (Arg.word n ∷ []) ≡ Printed.complete s)
        × (utils_atoi s ≡ n))
      × ((s : List ℕ) × (cli_printf (37 ∷ 100 ∷ []) behind (Arg.word n ∷ []) ≡ Printed.complete s)
          × (utils_atoi s ≡ n))
unfolding cli_printf utils_atoi
utils_atoi-cli_printf n behind small =
    let (value, _, _) = plain-Spells cli_max_line_len n 32 (omega arith) (omega arith) in
    let s = cli_fmt_int [] cli_max_line_len n 0 32 10 false false in
    (
      (s, go_on-complete behind s, value),
      (
        s,
        ap (λ b. go_on behind (Printed.complete b))
              (if_false _ _ {b = leb (2 ^ 31) n} (ground arith))
            ∙ go_on-complete behind s,
        value,
      ),
    )
