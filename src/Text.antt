-- ===== src/Text.antt =====
-- kernel/src/utils.c: text and memory, and the polling of a register. A C string is the list of its
-- characters before the NUL.
pub mod Digits
pub mod Compare
use so_rtos.Base.{
  ℕ, zero, suc, Option, none, some, Bool, true, false, not, ◌&&◌, ◌==◌, leb, ◌+◌, ◌-◌, ◌*◌, List,
  [], ◌∷◌, if◌then◌else◌, update,
}
use Prim.Native.Nat.{bit_and}

-- `'0'`, `'9'`.
abbrev pub is_digit : ℕ → Bool
is_digit c = leb 48 c && leb c 57

-- The loop of `utils_atoi`. An `int` that overflows is undefined, so that the result stands for
-- texts whose number is below 2 ^ 31.
unfoldable pub atoi_loop : ℕ → List ℕ → ℕ
atoi_loop res [] = res
atoi_loop res (c ∷ str) =
    let rest = atoi_loop (res * 10 + (c - 48)) str in if is_digit c then rest else res

-- `utils_atoi`.
unfoldable pub utils_atoi : List ℕ → ℕ
unfolding atoi_loop
utils_atoi str = atoi_loop 0 str

-- `utils_strcmp`, as the two characters whose difference it returns.
unfoldable pub utils_strcmp : List ℕ → List ℕ → ℕ × ℕ
utils_strcmp [] [] = (0, 0)
utils_strcmp [] (d ∷ str2) = (0, d)
utils_strcmp (c ∷ str1) [] = (c, 0)
utils_strcmp (c ∷ str1) (d ∷ str2) =
    let rest = utils_strcmp str1 str2 in if c == d then rest else (c, d)

-- `utils_strcmp(str1, str2) == 0`.
abbrev pub same_text : List ℕ → List ℕ → Bool
same_text str1 str2 = let (c, d) = utils_strcmp str1 str2 in c == d

-- `utils_strlen`.
unfoldable pub strlen_loop : List ℕ → ℕ → ℕ
strlen_loop [] len = len
strlen_loop (c ∷ str) len = strlen_loop str (len + 1)

unfoldable pub utils_strlen : Option (List ℕ) → ℕ
unfolding strlen_loop
utils_strlen none = 0
utils_strlen (some str) = strlen_loop str 0

-- `utils_memset` on a memory of bytes.
unfoldable pub utils_memset : ℕ → (ℕ → ℕ) → ℕ → ℕ → ℕ → ℕ
utils_memset zero memory dest value = memory
utils_memset (suc count) memory dest value =
    utils_memset count (update memory dest value) (dest + 1) value

-- `wait_for_flag_set`, `wait_for_flag_clear` and `wait_for_reg_mask_eq` on the values that the
-- register has at each look, the test being the loop's: `true` for 0 and `false` for -1.
unfoldable pub poll : (ℕ → Bool) → (ℕ → ℕ) → ℕ → ℕ → Bool
poll done reg zero look = done (reg look)
poll done reg (suc i) look =
    let rest = poll done reg i (look + 1) in if done (reg look) then true else rest

unfoldable pub wait_for_flag_set : (ℕ → ℕ) → ℕ → ℕ → Bool
unfolding poll
wait_for_flag_set reg bit_mask timeout_cycles =
    poll (λ r. not (bit_and r bit_mask == 0)) reg timeout_cycles 0

unfoldable pub wait_for_flag_clear : (ℕ → ℕ) → ℕ → ℕ → Bool
unfolding poll
wait_for_flag_clear reg bit_mask timeout_cycles =
    poll (λ r. bit_and r bit_mask == 0) reg timeout_cycles 0

unfoldable pub wait_for_reg_mask_eq : (ℕ → ℕ) → ℕ → ℕ → ℕ → Bool
unfolding poll
wait_for_reg_mask_eq reg bit_mask expected_value timeout_cycles =
    poll (λ r. bit_and r bit_mask == expected_value) reg timeout_cycles 0
