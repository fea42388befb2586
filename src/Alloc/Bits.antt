-- ===== src/Alloc/Bits.antt =====
-- kernel/src/allocator.c: `find_msb_index`, the shifts by it, and the scan of a bitmap.
use native.Mathlib.Nat.{le-div_iff_mul-le, div-mul-le_self}
use so_rtos.Base.{ℕ, zero, suc, ◌≡◌, sym, subst, arith, ◌+◌, ◌/◌, ◌^◌, ◌≤◌, ◌<◌, dec_lt}
use so_rtos.Alloc.{msb_from, find_msb_index}

msb_from-small : (rounds n : ℕ) → n < 2 → msb_from (suc rounds) n ≡ 0
unfolding msb_from
msb_from-small rounds n h = ground arith

msb_from-large : (rounds n : ℕ) → 2 ≤ n → msb_from (suc rounds) n ≡ suc (msb_from rounds (n / 2))
unfolding msb_from
msb_from-large rounds n h = ground arith

-- The index of the highest bit bounds the number on both sides.
pub msb_from-Bounds :
    (rounds n : ℕ)
    → 1 ≤ n
    → n < 2 ^ suc rounds
    → (2 ^ msb_from rounds n ≤ n) × (n < 2 ^ suc (msb_from rounds n))
unfolding msb_from
msb_from-Bounds zero n hp hn = (omega arith, omega arith)
msb_from-Bounds (suc rounds) n hp hn = elim (dec_lt n 2) [
  | yes h ↦
      subst (λ m. (2 ^ m ≤ n) × (n < 2 ^ suc m)) (sym (msb_from-small rounds n h))
        (omega arith, omega arith)
  | no h ↦
      let (low, high) = msb_from-Bounds rounds (n / 2) (omega arith) (omega arith) in
      subst (λ m. (2 ^ m ≤ n) × (n < 2 ^ suc m)) (sym (msb_from-large rounds n (omega arith)))
        (omega arith, omega arith)
]

pub find_msb_index-Bounds :
    (n : ℕ) → 1 ≤ n → n < 2 ^ 32 → (2 ^ find_msb_index n ≤ n) × (n < 2 ^ suc (find_msb_index n))
unfolding find_msb_index
find_msb_index-Bounds n hp hn = msb_from-Bounds 31 n hp hn

-- Division by the same number keeps a gap of the divisor.
pub div_gap : (a b d : ℕ) → 0 < d → a + d ≤ b → a / d < b / d
div_gap a b d hd h = let low = div-mul-le_self a d in (le-div_iff_mul-le hd).1 (ground arith)
