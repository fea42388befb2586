-- ===== src/Alloc/Search.antt =====
-- kernel/src/allocator.c: what the search for a free block returns.
use so_rtos.Base.{
  ℕ, zero, suc, Option, none, some, Bool, ◌≡◌, refl, sym, ap, ◌∙◌, ◌⊎◌, inl, inr, arith, ◌+◌, ◌-◌,
  ◌%◌, ◌^◌, ◌≤◌, ◌<◌, dec_lt, Bool-cases, if_true, if_false,
}
use so_rtos.Alloc.{lsb_from, mapping_indices_calc, mapping_indices_search}
use so_rtos.Alloc.Blocks.{Heap, head_at, locate_higher, locate_at, block_locate_free}
use so_rtos.Alloc.Mapping.{Precedes, mapping_indices_search-Precedes}

-- Every block on a free list has the size of that list.
pub record Filed (h : Heap) : Type 0 where
  pub in_list :
      (fl sl b : ℕ) → h.blocks fl sl ≡ some b → mapping_indices_calc (h.header b).size ≡ (fl, sl)
  pub at_least : (fl sl b : ℕ) → h.blocks fl sl ≡ some b → 16 ≤ (h.header b).size

-- The scan of a bitmap finds a bit that is not below the first one.
lsb_from-above : (rounds : ℕ) (bits : ℕ → Bool) (i j : ℕ) → lsb_from rounds bits i ≡ some j → i ≤ j
unfolding lsb_from
lsb_from-above zero bits i j e = ground (arith, e)
lsb_from-above (suc rounds) bits i j e = elim (Bool-cases (bits i)) [
  | inl set ↦
      let here : some i ≡ some j = sym (if_true _ _ {b = bits i} set) ∙ e in ground (arith, here)
  | inr clear ↦
      let above =
        lsb_from-above rounds bits (i + 1) j (sym (if_false _ _ {b = bits i} clear) ∙ e) in
      omega arith
]

-- The list is one that a search for the size may look at.
abbrev pub Follows : ℕ × ℕ → ℕ → ℕ → Type 0
Follows (fl₁, sl₁) fl sl = (fl₁ < fl) ⊎ ((fl₁ ≡ fl) × (sl₁ ≤ sl))

not_both :
    (x y : ℕ × ℕ) (fl sl : ℕ) → Precedes x y → x ≡ (fl, sl) → Follows y fl sl → (a b : ℕ) → a ≤ b
not_both x y fl sl before here order a b =
    let at_fl = ap (λ (p : ℕ × ℕ). p.0) here in
    let at_sl = ap (λ (p : ℕ × ℕ). p.1) here in ground (arith, before, order, at_fl, at_sl)

-- A block on a list that a search looks at is as large as the search asks.
large_enough :
    (h : Heap)
    → Filed h
    → (b size fl sl : ℕ) → size < 2 ^ 30
    → size % 2 ≡ 0
    → h.blocks fl sl ≡ some b
    → Follows (mapping_indices_search size) fl sl
    → size ≤ (h.header b).size
large_enough h filed b size fl sl hs even e order = elim (dec_lt (h.header b).size size) [
  | yes small ↦
      let least = filed.at_least fl sl b e in
      let before = mapping_indices_search-Precedes (h.header b).size size least small hs even in
      not_both (mapping_indices_calc (h.header b).size) (mapping_indices_search size) fl sl before
        (filed.in_list fl sl b e) order size (h.header b).size
  | no large ↦ omega arith
]

-- The search in the lists with a larger first index.
head_at-large :
    (h : Heap)
    → Filed h
    → (b size fl : ℕ) (o : Option ℕ) → size < 2 ^ 30
    → size % 2 ≡ 0
    → (mapping_indices_search size).0 < fl
    → head_at h fl o ≡ some b
    → size ≤ (h.header b).size
head_at-large h filed b size fl none hs even above e = ground (arith, e)
head_at-large h filed b size fl (some sl) hs even above e =
    large_enough h filed b size fl sl hs even e (inl above)

locate_higher-large :
    (h : Heap)
    → Filed h
    → (b size : ℕ) (o : Option ℕ) → size < 2 ^ 30
    → size % 2 ≡ 0
    → ((fl : ℕ) → o ≡ some fl → (mapping_indices_search size).0 < fl)
    → locate_higher h o ≡ some b
    → size ≤ (h.header b).size
unfolding locate_higher
locate_higher-large h filed b size none hs even above e = ground (arith, e)
locate_higher-large h filed b size (some fl) hs even above e =
    head_at-large h filed b size fl (lsb_from 32 (h.sl_bitmap fl) 0) hs even (above fl refl) e

locate_at-large :
    (h : Heap)
    → Filed h
    → (b size : ℕ) (o : Option ℕ) → size < 2 ^ 30
    → size % 2 ≡ 0
    → ((sl : ℕ) → o ≡ some sl → (mapping_indices_search size).1 ≤ sl)
    → locate_at h (mapping_indices_search size).0 o ≡ some b
    → size ≤ (h.header b).size
unfolding locate_at
locate_at-large h filed b size none hs even above e =
    let fl = (mapping_indices_search size).0 in
    locate_higher-large h filed b size (lsb_from (31 - fl) h.fl_bitmap (fl + 1)) hs even
      (λ f found. let bound = lsb_from-above (31 - fl) h.fl_bitmap (fl + 1) f found in omega arith)
      e
locate_at-large h filed b size (some sl) hs even above e =
    large_enough h filed b size (mapping_indices_search size).0 sl hs even e
      (inr (refl, above sl refl))

-- When every block on a free list has the size of its list, the search for an even size below 2^30
-- returns a block that is at least as large as that size, if it returns one.
pub block_locate_free-large :
    (h : Heap) (size b : ℕ)
    → Filed h
    → size < 2 ^ 30
    → size % 2 ≡ 0
    → block_locate_free h size ≡ some b
    → size ≤ (h.header b).size
unfolding block_locate_free
block_locate_free-large h size b filed hs even e =
    let (fl, sl) = mapping_indices_search size in
    locate_at-large h filed b size (lsb_from (32 - sl) (h.sl_bitmap fl) sl) hs even
      (lsb_from-above (32 - sl) (h.sl_bitmap fl) sl) e
