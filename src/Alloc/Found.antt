-- ===== src/Alloc/Found.antt =====
-- kernel/src/allocator.c: a search that has a list to find.
use native.Mathlib.Nat.{le-div_iff_mul-le, div-mul-le_self}
use so_rtos.Base.{
  ℕ, zero, suc, Option, none, some, Bool, true, not, is_null, ◌≡◌, refl, sym, ap, subst, ◌∙◌, inl,
  inr, arith, ◌+◌, ◌-◌, ◌/◌, ◌^◌, ◌≤◌, ◌<◌, dec_lt, Bool-cases, Option-cases, if_true, if_false,
}
use so_rtos.Alloc.{
  lsb_from, find_msb_index, second_index, mapping_indices_calc, mapping_indices_search, rounded_up,
}
use so_rtos.Alloc.Blocks.{Heap, head_at, locate_higher, locate_at, block_locate_free}
use so_rtos.Alloc.Mapping.{
  pow_positive, find_msb_index_mono, rounded_up-Bounds, mapping_indices_search-large,
  mapping_indices_calc-large,
}
use so_rtos.Alloc.Search.{Follows, Filed}

-- The scan of a bitmap finds a bit if there is one in its range.
lsb_from-found :
    (rounds : ℕ) (bits : ℕ → Bool) (i j : ℕ)
    → i ≤ j
    → j < i + rounds
    → bits j ≡ true
    → (k : ℕ) × (lsb_from rounds bits i ≡ some k) × (bits k ≡ true) × (k < i + rounds)
unfolding lsb_from
lsb_from-found zero bits i j h₁ h₂ set = absurd (omega arith)
lsb_from-found (suc rounds) bits i j h₁ h₂ set = elim (Bool-cases (bits i)) [
  | inl here ↦ (i, if_true _ _ {b = bits i} here, here, omega arith)
  | inr clear ↦
      let next : i + 1 ≤ j = ground (arith, clear, set, ap bits) in
      let (k, found, bit, range) = lsb_from-found rounds bits (i + 1) j next (omega arith) set in
      (k, if_false _ _ {b = bits i} clear ∙ found, bit, omega arith)
]

lsb_from-set :
    (rounds : ℕ) (bits : ℕ → Bool) (i k : ℕ) → lsb_from rounds bits i ≡ some k → bits k ≡ true
unfolding lsb_from
lsb_from-set zero bits i k e = ground (arith, e)
lsb_from-set (suc rounds) bits i k e = elim (Bool-cases (bits i)) [
  | inl set ↦
      let here : some i ≡ some k = sym (if_true _ _ {b = bits i} set) ∙ e in
      let same : i ≡ k = ground (arith, here) in ap bits (sym same) ∙ set
  | inr clear ↦ lsb_from-set rounds bits (i + 1) k (sym (if_false _ _ {b = bits i} clear) ∙ e)
]

div_mono : (a b d : ℕ) → 0 < d → a ≤ b → a / d ≤ b / d
div_mono a b d hd h = let low = div-mul-le_self a d in (le-div_iff_mul-le hd).1 (omega arith)

second_index_mono : (f a b : ℕ) → a ≤ b → second_index a f ≤ second_index b f
unfolding second_index
second_index_mono f a b h =
    let rest = div_mono a b (2 ^ (f - 5)) (pow_positive (f - 5)) h in ground arith

-- A larger block is on the same list, or on a later one.
pub mapping_indices_calc-Follows :
    (a b : ℕ)
    → 16 ≤ a
    → a ≤ b
    → b < 2 ^ 32
    → Follows (mapping_indices_calc a) (mapping_indices_calc b).0 (mapping_indices_calc b).1
mapping_indices_calc-Follows a b ha h hb =
    let f = find_msb_index a in
    let g = find_msb_index b in
    let mono = find_msb_index_mono a b (omega arith) h hb in
    rw (mapping_indices_calc-large a ha, mapping_indices_calc-large b (omega arith))
      (elim (dec_lt f g) [
        | yes less ↦ inl less
        | no same ↦
            let e : f ≡ g = omega arith in
            inr (e, subst (λ k. second_index a f ≤ second_index b k) e (second_index_mono f a b h))
      ])

-- The bitmaps say which lists hold a block, and all lists are in their range.
pub record IsMapped (h : Heap) : Type 0 where
  pub sl_bits : (i j : ℕ) → h.sl_bitmap i j ≡ not (is_null (h.blocks i j))
  pub fl_bits : (i : ℕ) → h.fl_bitmap i ≡ true → (j : ℕ) × (j < 32) × (h.sl_bitmap i j ≡ true)
  pub listed : (i j : ℕ) → h.sl_bitmap i j ≡ true → (h.fl_bitmap i ≡ true) × (i < 32) × (j < 32)

value_in : (o : Option ℕ) → not (is_null o) ≡ true → (b : ℕ) × (o ≡ some b)
value_in none e = absurd (ground (arith, e))
value_in (some b) e = (b, refl)

-- A list with its bit set has a head.
head_of :
    (h : Heap) → IsMapped h → (i j : ℕ) → h.sl_bitmap i j ≡ true → (b : ℕ) × (h.blocks i j ≡ some b)
head_of h mapped i j set = value_in (h.blocks i j) (sym (mapped.sl_bits i j) ∙ set)

-- The search in the lists with a larger first index.
locate_higher-found :
    (h : Heap)
    → IsMapped h
    → (fl : ℕ) → h.fl_bitmap fl ≡ true
    → (b : ℕ) × (locate_higher h (some fl) ≡ some b)
unfolding locate_higher
locate_higher-found h mapped fl set =
    let (j, range, bit) = mapped.fl_bits fl set in
    let (k, found, here, _) =
      lsb_from-found 32 (h.sl_bitmap fl) 0 j (omega arith) (omega arith) bit in
    let (b, head) = head_of h mapped fl k here in (b, ap (head_at h fl) found ∙ head)

-- The search that starts at a list finds a block, if there is one in that list or behind it.
locate_at-found :
    (h : Heap)
    → IsMapped h
    → (p q fl sl : ℕ) → h.sl_bitmap fl sl ≡ true
    → Follows (p, q) fl sl
    → (b : ℕ) × (locate_at h p (lsb_from (32 - q) (h.sl_bitmap p) q) ≡ some b)
unfolding locate_at
locate_at-found h mapped p q fl sl set order =
    let (used, first_range, second_range) = mapped.listed fl sl set in
    elim (Option-cases (lsb_from (32 - q) (h.sl_bitmap p) q)) [
      | inr (k, here) ↦
          let (b, head) = head_of h mapped p k (lsb_from-set (32 - q) (h.sl_bitmap p) q k here) in
          (b, ap (locate_at h p) here ∙ head)
      | inl empty ↦ elim order [
        | inl above ↦
            let (k, found, bit, _) =
              lsb_from-found (31 - p) h.fl_bitmap (p + 1) fl (omega arith) (omega arith) used in
            let (b, head) = locate_higher-found h mapped k bit in
            (b, ap (locate_at h p) empty ∙ ap (locate_higher h) found ∙ head)
        | inr (same, behind) ↦
            let bit = ap (λ i. h.sl_bitmap i sl) same ∙ set in
            let (k, found, _, _) =
              lsb_from-found (32 - q) (h.sl_bitmap p) q sl behind (omega arith) bit in
            absurd (ground (arith, sym empty ∙ found))
      ]
    ]

-- When the bitmaps and the lists agree and a block on its list has the rounded size, the search for a
-- size from 16 to 2^30 returns a block.
pub block_locate_free-found :
    (h : Heap) (size fl sl b : ℕ)
    → IsMapped h
    → Filed h
    → 16 ≤ size
    → size < 2 ^ 30
    → h.blocks fl sl ≡ some b
    → rounded_up size ≤ (h.header b).size
    → (h.header b).size < 2 ^ 32
    → (c : ℕ) × (block_locate_free h size ≡ some c)
unfolding block_locate_free
block_locate_free-found h size fl sl b mapped filed least small listed fits word =
    let (above, _) = rounded_up-Bounds size least small in
    let order : Follows (mapping_indices_search size) fl sl =
      subst (λ x. Follows (mapping_indices_search size) x.0 x.1) (filed.in_list fl sl b listed)
        (subst
          (λ x.
            Follows x (mapping_indices_calc (h.header b).size).0
              (mapping_indices_calc (h.header b).size).1)
          (sym (mapping_indices_search-large size small))
          (mapping_indices_calc-Follows (rounded_up size) (h.header b).size (omega arith) fits
            word)) in
    let (p, q) = mapping_indices_search size in
    locate_at-found h mapped p q fl sl (mapped.sl_bits fl sl ∙ ap (λ o. not (is_null o)) listed)
      order
