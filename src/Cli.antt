-- ===== src/Cli.antt =====
-- kernel/src/cli.c: the shell. Text that goes to the terminal is a list of characters.
pub mod Edit
pub mod Commands
pub mod Numbers
pub mod Printf
use so_rtos.Base.{
  ℕ, zero, suc, Option, none, some, Bool, true, false, not, ◌&&◌, ◌||◌, ◌==◌, ltb, leb, ◌+◌, ◌-◌,
  ◌^◌, ◌*◌, ◌/◌, ◌%◌, List, [], ◌∷◌, ◌++◌, if◌then◌else◌,
}
use so_rtos.Chain.{length}
use so_rtos.Text.{is_digit}

-- `CLI_MAX_LINE_LEN`, `CLI_MAX_CMDS`, `CLI_MAX_ARGS`.
abbrev pub cli_max_line_len : ℕ
cli_max_line_len = 128

abbrev pub cli_max_cmds : ℕ
cli_max_cmds = 32

abbrev pub cli_max_args : ℕ
cli_max_args = 16

-- `if (*pos < max - 1) buff[(*pos)++] = c;`, for the characters written so far.
abbrev pub put : ℕ → List ℕ → ℕ → List ℕ
put max buff c = if ltb (length buff) (max - 1) then buff ++ c ∷ [] else buff

unfoldable pub put_pad : ℕ → ℕ → List ℕ → ℕ → List ℕ
put_pad zero max buff c = buff
put_pad (suc padding) max buff c = put_pad padding max (put max buff c) c

-- The loop of `cli_fmt_int` that fills `digits`, the lowest first, with room for 24 of them.
unfoldable pub digits_of : ℕ → ℕ → ℕ → List ℕ
digits_of zero val base = []
digits_of (suc room) val base =
    let d = val % base in
    let rest = digits_of room (val / base) base in
    (if ltb d 10 then 48 + d else 97 + d - 10) ∷ (if ltb 0 (val / base) then rest else [])

-- The digits are written from the last one.
unfoldable pub put_digits : ℕ → List ℕ → List ℕ → List ℕ
put_digits max buff [] = buff
put_digits max buff (d ∷ digits) = put max (put_digits max buff digits) d

-- `cli_fmt_int`.
unfoldable pub cli_fmt_int : List ℕ → ℕ → ℕ → ℕ → ℕ → ℕ → Bool → Bool → List ℕ
unfolding put_pad digits_of put_digits
cli_fmt_int buff max val width pad base neg left_align =
    let digits = digits_of 24 val base in
    let padding = width - (length digits + (if neg then 1 else 0)) in
    let sign_first = not left_align && (neg && pad == 48) in
    let b₁ = if sign_first then put max buff 45 else buff in
    let b₂ = if left_align then b₁ else put_pad padding max b₁ pad in
    let b₃ = if neg && not sign_first then put max b₂ 45 else b₂ in
    let b₄ = put_digits max b₃ digits in if left_align then put_pad padding max b₄ 32 else b₄

-- What `cli_printf` is given beside its format: a machine word, or a string or NULL.
pub data Arg : Type 0 where
  word : ℕ → Arg
  text : Option (List ℕ) → Arg

-- `va_arg`. Past the last argument, and at one of another kind, what C reads is undefined; here it
-- is 0 or NULL.
abbrev pub word_of : List Arg → ℕ
word_of (Arg.word n ∷ args) = n
word_of _ = 0

abbrev pub text_of : List Arg → Option (List ℕ)
text_of (Arg.text s ∷ args) = s
text_of _ = none

abbrev pub rest_of : List Arg → List Arg
rest_of [] = []
rest_of (a ∷ args) = args

unfoldable pub put_text : ℕ → List ℕ → List ℕ → List ℕ
put_text max buff [] = buff
put_text max buff (c ∷ s) = put_text max (put max buff c) s

-- The branch `%s`.
unfoldable pub put_string : ℕ → List ℕ → Option (List ℕ) → ℕ → Bool → List ℕ
unfolding put_pad put_text
put_string max buff none width left_align = buff
put_string max buff (some s) width left_align =
    let padding = width - length s in
    let b₁ = if left_align then buff else put_pad padding max buff 32 in
    let b₂ = put_text max b₁ s in if left_align then put_pad padding max b₂ 32 else b₂

-- The branch `%d`, on the word of an `int`.
abbrev pub put_decimal : ℕ → List ℕ → ℕ → ℕ → ℕ → Bool → List ℕ
put_decimal max buff n width pad left_align =
    if leb (2 ^ 31) n
    then cli_fmt_int buff max (2 ^ 32 - n) width pad 10 true left_align
    else cli_fmt_int buff max n width pad 10 false left_align

-- The width of a directive, an `int` whose word wraps, and the text behind it.
unfoldable pub read_width : ℕ → List ℕ → ℕ × List ℕ
read_width width [] = (width, [])
read_width width (c ∷ s) =
    let rest = read_width ((width * 10 + (c - 48)) % 2 ^ 32) s in
    if is_digit c then rest else (width, c ∷ s)

-- An unsigned number, in the given base.
abbrev pub put_unsigned : List ℕ → List Arg → ℕ → ℕ → ℕ → Bool → List ℕ × List Arg
put_unsigned buff args width pad base left_align =
    (cli_fmt_int buff cli_max_line_len (word_of args) width pad base false left_align, rest_of args)

-- A negative width pads as a width of 0 does.
abbrev pub padded_to : ℕ → ℕ
padded_to width = if leb (2 ^ 31) width then 0 else width

-- What a directive with the given letter writes, and the arguments behind it.
unfoldable pub convert : ℕ → List ℕ → List Arg → ℕ → ℕ → Bool → List ℕ × List Arg
unfolding cli_fmt_int put_string
convert letter buff args width pad left_align =
    let max = cli_max_line_len in
    let n = word_of args in
    if letter == 100
    then (put_decimal max buff n width pad left_align, rest_of args)
    else if letter == 117
    then put_unsigned buff args width pad 10 left_align
    else if letter == 120
    then put_unsigned buff args width pad 16 left_align
    else if letter == 112
    then put_unsigned (if ltb (length buff) (max - 2) then buff ++ 48 ∷ 120 ∷ [] else buff) args 8
        48 16 left_align
    else if letter == 115
    then (put_string max buff (text_of args) width left_align, rest_of args)
    else if letter == 99
    then (if ltb (length buff) (max - 1)
        then (buff ++ n % 256 ∷ [], rest_of args)
        else (buff, args))
    else if letter == 37
    then (put max buff 37, args)
    else (buff, args)

-- The flags of a directive.
abbrev pub skip_char : ℕ → List ℕ → Bool × List ℕ
skip_char c [] = (false, [])
skip_char c (d ∷ s) = if d == c then (true, s) else (false, d ∷ s)

-- What the loop of `cli_printf` leaves in `buff`: the whole text, or, when the format ends inside a
-- directive, what is written so far, with the arguments that are left.
pub data Printed : Type 0 where
  complete : List ℕ → Printed
  runs_on : List ℕ → List Arg → Printed

unfoldable pub printf_letter :
    (List ℕ → List Arg → List ℕ → Printed) → List ℕ → List Arg → ℕ × List ℕ → ℕ → Bool → Printed
unfolding convert
printf_letter rest buff args (width, []) pad left_align = Printed.runs_on buff args
printf_letter rest buff args (width, letter ∷ s) pad left_align =
    let (buff', args') = convert letter buff args (padded_to width) pad left_align in
    rest buff' args' s

-- The loop of `cli_printf` up to the NUL of the text. A round reads at least one character, so that
-- as many rounds as the text is long, and one more, are enough.
unfoldable pub printf_loop : ℕ → List ℕ → List Arg → List ℕ → Printed
unfolding printf_letter read_width
printf_loop zero buff args s = Printed.complete buff
printf_loop (suc fuel) buff args [] = Printed.complete buff
printf_loop (suc fuel) buff args (c ∷ s) =
    let (left_align, s₁) = skip_char 45 s in
    let (zeros, s₂) = skip_char 48 s₁ in
    let pad = if zeros && not left_align then 48 else 32 in
    let plain = printf_loop fuel (buff ++ c ∷ []) args s in
    let directive = printf_letter (printf_loop fuel) buff args (read_width 0 s₂) pad left_align in
    if leb (cli_max_line_len - 1) (length buff)
    then Printed.complete buff
    else if c == 37
    then directive
    else plain

-- A directive takes the format's NUL for its letter, and the loop goes on in the memory behind it.
unfoldable pub go_on : List (List ℕ) → Printed → Printed
unfolding printf_loop
go_on [] printed = printed
go_on (part ∷ behind) (Printed.complete buff) = Printed.complete buff
go_on (part ∷ behind) (Printed.runs_on buff args) =
    go_on behind (printf_loop (suc (length part)) buff args part)

-- `cli_printf` up to its `cli_puts`. The memory behind the format is given as the texts that its
-- NULs end.
unfoldable pub cli_printf : List ℕ → List (List ℕ) → List Arg → Printed
unfolding printf_loop go_on
cli_printf format behind args = go_on behind (printf_loop (suc (length format)) [] args format)
