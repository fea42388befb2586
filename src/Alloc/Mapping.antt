-- ===== src/Alloc/Mapping.antt =====
-- kernel/src/allocator.c: the order of the lists that a search looks at.
use native.Mathlib.Nat.{pow-le-pow_right, le-div_iff_mul-le}
use so_rtos.Base.{
  ℕ, suc, ◌≡◌, refl, sym, ap, subst, ◌∙◌, ◌⊎◌, inl, inr, arith, ◌+◌, ◌-◌, ◌*◌, ◌/◌, ◌%◌, ◌^◌, ◌≤◌,
  ◌<◌, dec_lt, if_false, ltb, leb,
}
use so_rtos.Alloc.{
  find_msb_index, second_index, mapping_indices_calc, mapping_indices_search, rounded_up,
  block_min_size, fl_index_max,
}
use so_rtos.Alloc.Bits.{find_msb_index-Bounds, div_gap}

-- The first list comes before the second in the order of a search.
abbrev pub Precedes : ℕ × ℕ → ℕ × ℕ → Type 0
Precedes (fl₁, sl₁) (fl₂, sl₂) = (fl₁ < fl₂) ⊎ ((fl₁ ≡ fl₂) × (sl₁ < sl₂))

pub pow_split : (f : ℕ) → 5 ≤ f → 2 ^ f ≡ 32 * 2 ^ (f - 5)
pow_split f h =
    let e : f ≡ suc (suc (suc (suc (suc (f - 5))))) = omega arith in ap (λ m. 2 ^ m) e ∙ omega arith

pub pow_positive : (k : ℕ) → 0 < 2 ^ k
pow_positive k = pow-le-pow_right {n = 2} (omega arith) {i = 0} (omega arith)

pub find_msb_index_mono :
    (a b : ℕ) → 1 ≤ a → a ≤ b → b < 2 ^ 32 → find_msb_index a ≤ find_msb_index b
find_msb_index_mono a b ha h hb = elim (dec_lt (find_msb_index b) (find_msb_index a)) [
  | yes h' ↦
      let (low, _) = find_msb_index-Bounds a ha (omega arith) in
      let (_, high) = find_msb_index-Bounds b (omega arith) hb in
      let step = pow-le-pow_right {n = 2} (omega arith) h' in omega arith
  | no h' ↦ omega arith
]

second_index_gap :
    (f a b : ℕ) → 5 ≤ f → 2 ^ f ≤ a → a + 2 ^ (f - 5) ≤ b → second_index a f < second_index b f
unfolding second_index
second_index_gap f a b hf ha h =
    let gap = div_gap a b (2 ^ (f - 5)) (pow_positive (f - 5)) h in
    let base : 32 ≤ a / 2 ^ (f - 5) =
      (le-div_iff_mul-le (pow_positive (f - 5))).1 (rw (sym (pow_split f hf)) ha) in
    ground arith

second_index_small : (f a b : ℕ) → f < 5 → a < b → b % 2 ≡ 0 → second_index a f < second_index b f
unfolding second_index
second_index_small f a b hf h even = ground arith

-- The size that a search looks for, rounded up to the next list.
pub rounded_up-Large :
    (size f : ℕ) → find_msb_index size ≡ f → 5 ≤ f → rounded_up size ≡ size + (2 ^ (f - 5) - 1)
unfolding rounded_up
rounded_up-Large size f e h = ground (arith, e)

pub rounded_up-Small : (size f : ℕ) → find_msb_index size ≡ f → f < 5 → rounded_up size ≡ size
unfolding rounded_up
rounded_up-Small size f e h = ground (arith, e)

pub mapping_indices_calc-large :
    (size : ℕ)
    → 16 ≤ size
    → mapping_indices_calc size ≡ (find_msb_index size, second_index size (find_msb_index size))
unfolding mapping_indices_calc
mapping_indices_calc-large size h = if_false _ _ {b = ltb size block_min_size} (ground arith)

pub mapping_indices_search-large :
    (size : ℕ)
    → size < 2 ^ 30
    → mapping_indices_search size ≡ mapping_indices_calc (rounded_up size)
unfolding mapping_indices_search
mapping_indices_search-large size h =
    ap (λ n. mapping_indices_calc (rounded_up n))
      (if_false _ _ {b = leb (2 ^ fl_index_max) size} (ground arith))

pub rounded_up-Bounds :
    (size : ℕ) → 16 ≤ size → size < 2 ^ 30 → (size ≤ rounded_up size) × (rounded_up size < 2 ^ 32)
rounded_up-Bounds size h₁ h₂ = elim (dec_lt (find_msb_index size) 5) [
  | yes h ↦ let e = rounded_up-Small size (find_msb_index size) refl h in (omega arith, omega arith)
  | no h ↦
      let e = rounded_up-Large size (find_msb_index size) refl (omega arith) in
      let (low, high) = find_msb_index-Bounds size (omega arith) (omega arith) in
      let split = pow_split (find_msb_index size) (omega arith) in
      let pos = pow_positive (find_msb_index size - 5) in (omega arith, omega arith)
]

-- A smaller block with the same first index has a smaller second one.
second_index-gap :
    (b size f : ℕ)
    → b < size
    → size % 2 ≡ 0
    → 2 ^ f ≤ b
    → find_msb_index size ≡ f
    → second_index b f < second_index (rounded_up size) f
second_index-gap b size f h even low e = elim (dec_lt f 5) [
  | yes h' ↦
      let gap = second_index_small f b size h' h even in
      let same = ap (λ n. second_index n f) (rounded_up-Small size f e h') in omega arith
  | no h' ↦
      let rounded = rounded_up-Large size f e (omega arith) in
      let pos = pow_positive (f - 5) in
      second_index_gap f b (rounded_up size) (omega arith) low (omega arith)
]

-- For an even size below 2^30, the list of a block of at least 16 bytes that is smaller than the size
-- comes before all the lists that a search for the size looks at.
pub mapping_indices_search-Precedes :
    (b size : ℕ)
    → 16 ≤ b
    → b < size
    → size < 2 ^ 30
    → size % 2 ≡ 0
    → Precedes (mapping_indices_calc b) (mapping_indices_search size)
mapping_indices_search-Precedes b size hb h hs even =
    let r = rounded_up size in
    let (above, bound) = rounded_up-Bounds size (omega arith) hs in
    let e₁ = mapping_indices_calc-large b hb in
    let e₂ = mapping_indices_search-large size hs ∙ mapping_indices_calc-large r (omega arith) in
    let m₁ = find_msb_index_mono b size (omega arith) (omega arith) (omega arith) in
    let m₂ = find_msb_index_mono size r (omega arith) above bound in
    let (low, _) = find_msb_index-Bounds b (omega arith) (omega arith) in
    subst (λ x. Precedes x (mapping_indices_search size)) (sym e₁)
      (subst (λ y. Precedes (find_msb_index b, second_index b (find_msb_index b)) y) (sym e₂)
        (elim (dec_lt (find_msb_index b) (find_msb_index r)) [
          | yes h' ↦ inl h'
          | no h' ↦
              let same : find_msb_index b ≡ find_msb_index r = omega arith in
              let gap = second_index-gap b size (find_msb_index b) h even low (omega arith) in
              inr (same, subst (λ f. second_index b (find_msb_index b) < second_index r f) same gap)
        ]))
