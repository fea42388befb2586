-- ===== src/Cli/Printf.antt =====
-- kernel/src/cli.c: the buffer and the rounds of `cli_printf`.
use so_rtos.Base.{
  ℕ, zero, suc, ◌≡◌, ◌≤◌, ◌<◌, refl, arith, Bool, true, false, not, ◌&&◌, ◌==◌, List, [], ◌∷◌, ◌++◌,
  ap, sym, subst, ◌∙◌, Bool-cases, inl, inr, if_true, if_false, ◌+◌, ◌-◌, ◌*◌, if◌then◌else◌, ltb,
  leb, Option, none, some, ◌%◌, ◌^◌,
}
use so_rtos.Chain.{length, length-append}
use so_rtos.Text.{is_digit}
use so_rtos.Cli.{
  cli_max_line_len, put, put_pad, digits_of, put_digits, cli_fmt_int, Arg, put_text, put_string,
  put_unsigned, convert, skip_char, printf_letter, printf_loop, cli_printf, read_width, padded_to,
  Printed, go_on, word_of, text_of, rest_of,
}

-- There is room for the NUL.
abbrev Within : List ℕ → Type 0
Within buff = length buff ≤ 127

put-Within : (buff : List ℕ) (c : ℕ) → Within buff → Within (put cli_max_line_len buff c)
put-Within buff c h = elim (Bool-cases (ltb (length buff) 127)) [
  | inl e ↦
      subst Within (sym (if_true (buff ++ c ∷ []) buff e)) (ground (arith, length-append buff c))
  | inr e ↦ subst Within (sym (if_false (buff ++ c ∷ []) buff e)) h
]

choice-Within : (b : Bool) (x y : List ℕ) → Within x → Within y → Within (if b then x else y)
choice-Within true x y p q = p
choice-Within false x y p q = q

put_pad-Within :
    (n : ℕ) (buff : List ℕ) (c : ℕ) → Within buff → Within (put_pad n cli_max_line_len buff c)
unfolding put_pad
put_pad-Within zero buff c h = h
put_pad-Within (suc n) buff c h = put_pad-Within n _ c (put-Within buff c h)

put_digits-Within :
    (buff digits : List ℕ) → Within buff → Within (put_digits cli_max_line_len buff digits)
unfolding put_digits
put_digits-Within buff [] h = h
put_digits-Within buff (d ∷ digits) h = put-Within _ d (put_digits-Within buff digits h)

put_text-Within : (s buff : List ℕ) → Within buff → Within (put_text cli_max_line_len buff s)
unfolding put_text
put_text-Within [] buff h = h
put_text-Within (c ∷ s) buff h = put_text-Within s _ (put-Within buff c h)

cli_fmt_int-Within :
    (buff : List ℕ) (val width pad base : ℕ) (neg left_align : Bool)
    → Within buff
    → Within (cli_fmt_int buff cli_max_line_len val width pad base neg left_align)
unfolding cli_fmt_int
cli_fmt_int-Within buff val width pad base neg left_align h =
    let padding = width - (length (digits_of 24 val base) + (if neg then 1 else 0)) in
    let p₁ = choice-Within _ _ _ (put-Within buff 45 h) h in
    let p₂ = choice-Within left_align _ _ p₁ (put_pad-Within padding _ pad p₁) in
    let p₃ = choice-Within _ _ _ (put-Within _ 45 p₂) p₂ in
    let p₄ = put_digits-Within _ (digits_of 24 val base) p₃ in
    choice-Within left_align _ _ (put_pad-Within padding _ 32 p₄) p₄

put_string-Within :
    (buff : List ℕ) (s : Option (List ℕ)) (width : ℕ) (left_align : Bool)
    → Within buff
    → Within (put_string cli_max_line_len buff s width left_align)
unfolding put_string
put_string-Within buff none width left_align h = h
put_string-Within buff (some s) width left_align h =
    let padding = width - length s in
    let p₁ = choice-Within left_align _ _ h (put_pad-Within padding _ 32 h) in
    let p₂ = put_text-Within s _ p₁ in
    choice-Within left_align _ _ (put_pad-Within padding _ 32 p₂) p₂

unsigned-Within :
    (buff : List ℕ) (args : List Arg) (width pad base : ℕ) (left_align : Bool)
    → Within buff
    → Within (put_unsigned buff args width pad base left_align).0
unsigned-Within buff args width pad base left_align h =
    cli_fmt_int-Within buff (word_of args) width pad base false left_align h

choice-first :
    (b : Bool) (x y : List ℕ × List Arg) → Within x.0 → Within y.0 → Within (if b then x else y).0
choice-first true x y p q = p
choice-first false x y p q = q

prefix-Within :
    (buff : List ℕ)
    → Within buff
    → Within (if ltb (length buff) 126 then buff ++ 48 ∷ 120 ∷ [] else buff)
prefix-Within buff h = elim (Bool-cases (ltb (length buff) 126)) [
  | inl e ↦ subst Within (sym (if_true (buff ++ 48 ∷ 120 ∷ []) buff e)) (ground (arith, two buff))
  | inr e ↦ subst Within (sym (if_false (buff ++ 48 ∷ 120 ∷ []) buff e)) h
]
  where
    two : (s : List ℕ) → length (s ++ 48 ∷ 120 ∷ []) ≡ suc (suc (length s))
    two [] = refl
    two (x ∷ s) = ap suc (two s)

choice-tested :
    (b : Bool) (x y : List ℕ × List Arg)
    → (b ≡ true → Within x.0)
    → Within y.0
    → Within (if b then x else y).0
choice-tested true x y p q = p refl
choice-tested false x y p q = q

convert-Within :
    (letter : ℕ) (buff : List ℕ) (args : List Arg) (width pad : ℕ) (left_align : Bool)
    → Within buff
    → Within (convert letter buff args width pad left_align).0
unfolding convert
convert-Within letter buff args width pad left_align h =
    let n = word_of args in
    choice-first (letter == 100) _ _
      (choice-Within (leb (2 ^ 31) n) _ _
        (cli_fmt_int-Within buff (2 ^ 32 - n) width pad 10 true left_align h)
        (cli_fmt_int-Within buff n width pad 10 false left_align h))
      (choice-first (letter == 117) _ _ (unsigned-Within buff args width pad 10 left_align h) (
        choice-first (letter == 120) _ _ (unsigned-Within buff args width pad 16 left_align h) (
          choice-first (letter == 112) _ _
            (unsigned-Within _ args 8 48 16 left_align (prefix-Within buff h))
            (choice-first (letter == 115) _ _
              (put_string-Within buff (text_of args) width left_align h)
              (choice-first (letter == 99) _ _
                (choice-tested (ltb (length buff) 127) (buff ++ n % 256 ∷ [], rest_of args)
                  (buff, args) (λ e. ground (arith, length-append buff (n % 256))) h)
                (choice-first (letter == 37) _ _ (put-Within buff 37 h) h))))))

-- What is written so far leaves room for its NUL.
abbrev pub FitsBuffer : Printed → Type 0
FitsBuffer (Printed.complete s) = length s < cli_max_line_len
FitsBuffer (Printed.runs_on s args) = length s < cli_max_line_len

printf_letter-Within :
    (rest : List ℕ → List Arg → List ℕ → Printed)
    → ((b : List ℕ) (a : List Arg) (k : List ℕ) → Within b → FitsBuffer (rest b a k))
    → (buff : List ℕ) (args : List Arg) (r : ℕ × List ℕ) (pad : ℕ) (left_align : Bool) → Within buff
    → FitsBuffer (printf_letter rest buff args r pad left_align)
unfolding printf_letter
printf_letter-Within rest p buff args (width, []) pad left_align h = omega arith
printf_letter-Within rest p buff args (width, k ∷ s) pad left_align h =
    p _ _ s (convert-Within k buff args (padded_to width) pad left_align h)

printf_loop-Within :
    (fuel : ℕ) (buff : List ℕ) (args : List Arg) (s : List ℕ)
    → Within buff
    → FitsBuffer (printf_loop fuel buff args s)
unfolding printf_loop
printf_loop-Within zero buff args s h = omega arith
printf_loop-Within (suc fuel) buff args [] h = omega arith
printf_loop-Within (suc fuel) buff args (c ∷ s) h =
    let (left_align, s₁) = skip_char 45 s in
    let (zeros, s₂) = skip_char 48 s₁ in
    let pad : ℕ = if zeros && not left_align then 48 else 32 in
    pick (leb 127 (length buff)) (c == 37) (Printed.complete buff)
      (printf_letter (printf_loop fuel) buff args (read_width 0 s₂) pad left_align)
      (printf_loop fuel (buff ++ c ∷ []) args s) (omega arith)
      (printf_letter-Within (printf_loop fuel) (λ b a k p. printf_loop-Within fuel b a k p) buff
        args (read_width 0 s₂) pad left_align h)
      (λ e. printf_loop-Within fuel (buff ++ c ∷ []) args s (ground (arith, length-append buff c)))
  where
    pick :
        (b d : Bool) (x y z : Printed)
        → FitsBuffer x
        → FitsBuffer y
        → (b ≡ false → FitsBuffer z)
        → FitsBuffer (if b then x else if d then y else z)
    pick true d x y z p q r = p
    pick false true x y z p q r = q
    pick false false x y z p q r = r refl

go_on-FitsBuffer :
    (behind : List (List ℕ)) (printed : Printed)
    → FitsBuffer printed
    → FitsBuffer (go_on behind printed)
unfolding go_on
go_on-FitsBuffer [] printed h = h
go_on-FitsBuffer (part ∷ behind) (Printed.complete s) h = h
go_on-FitsBuffer (part ∷ behind) (Printed.runs_on s args) h =
    go_on-FitsBuffer behind (printf_loop (suc (length part)) s args part)
      (printf_loop-Within (suc (length part)) s args part (omega arith))

-- Whatever the format, the memory behind it and the arguments are, what `cli_printf` writes leaves
-- room for the NUL in its buffer of CLI_MAX_LINE_LEN characters, also when the format ends inside a
-- directive and the loop goes on behind the format.
pub cli_printf-FitsBuffer :
    (format : List ℕ) (behind : List (List ℕ)) (args : List Arg)
    → FitsBuffer (cli_printf format behind args)
unfolding cli_printf
cli_printf-FitsBuffer format behind args =
    go_on-FitsBuffer behind (printf_loop (suc (length format)) [] args format)
      (printf_loop-Within (suc (length format)) [] args format (omega arith))

-- How much of the format is left behind a directive's flags and width.
skip_char-length : (c : ℕ) (s : List ℕ) → length (skip_char c s).1 ≤ length s
skip_char-length c [] = omega arith
skip_char-length c (d ∷ s) = ground arith

read_width-length : (width : ℕ) (s : List ℕ) → length (read_width width s).1 ≤ length s
unfolding read_width
read_width-length width [] = omega arith
read_width-length width (c ∷ s) = elim (Bool-cases (is_digit c)) [
  | inl e ↦ rw e (omega (arith, read_width-length ((width * 10 + (c - 48)) % 2 ^ 32) s))
  | inr e ↦ rw e (omega arith)
]

-- Two ways to go on that agree on every rest shorter than `n`.
abbrev Agree :
    ℕ → (List ℕ → List Arg → List ℕ → Printed) → (List ℕ → List Arg → List ℕ → Printed) → Type 0
Agree n f g = (b : List ℕ) (a : List Arg) (k : List ℕ) → length k < n → f b a k ≡ g b a k

printf_letter-Agree :
    (f g : List ℕ → List Arg → List ℕ → Printed) (n : ℕ)
    → Agree n f g
    → (buff : List ℕ) (args : List Arg) (r : ℕ × List ℕ) (pad : ℕ) (left_align : Bool)
    → length r.1 ≤ n
    → printf_letter f buff args r pad left_align ≡ printf_letter g buff args r pad left_align
unfolding printf_letter
printf_letter-Agree f g n e buff args (width, []) pad left_align p = refl
printf_letter-Agree f g n e buff args (width, k ∷ s) pad left_align p = e _ _ s (omega arith)

printf_loop-Agree : (f g : ℕ) → f ≤ g → Agree f (printf_loop f) (printf_loop g)
unfolding printf_loop
printf_loop-Agree zero g p b a k q = absurd (omega arith)
printf_loop-Agree (suc f) zero p b a k q = absurd (omega arith)
printf_loop-Agree (suc f) (suc g) p b a [] q = refl
printf_loop-Agree (suc f) (suc g) p b a (c ∷ s) q =
    let below = λ (b' : List ℕ) (a' : List Arg) (k' : List ℕ) (r : length k' < f).
      printf_loop-Agree f g (omega arith) b' a' k' r in
    let (left_align, s₁) = skip_char 45 s in
    let (zeros, s₂) = skip_char 48 s₁ in
    let pad : ℕ = if zeros && not left_align then 48 else 32 in
    let short : length (read_width 0 s₂).1 ≤ f =
      omega (arith, skip_char-length 45 s, skip_char-length 48 s₁, read_width-length 0 s₂) in
    let plain = below (b ++ c ∷ []) a s (omega arith) in
    let directive =
      printf_letter-Agree (printf_loop f) (printf_loop g) f below b a (read_width 0 s₂) pad
        left_align short in
    ap
      (λ z.
        if leb 127 (length b)
        then Printed.complete b
        else if c == 37
        then printf_letter (printf_loop f) b a (read_width 0 s₂) pad left_align
        else z)
      plain
    ∙ ap
        (λ z.
          if leb 127 (length b)
          then Printed.complete b
          else if c == 37
          then z
          else printf_loop g (b ++ c ∷ []) a s)
        directive

-- The rounds of the loop are enough: with any more of them it writes the same.
printf_loop-rounds :
    (part buff : List ℕ) (args : List Arg) (rounds : ℕ)
    → length part < rounds
    → printf_loop rounds buff args part ≡ printf_loop (suc (length part)) buff args part
printf_loop-rounds part buff args rounds enough =
    sym (printf_loop-Agree (suc (length part)) rounds enough buff args part (omega arith))
