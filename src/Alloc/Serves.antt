-- ===== src/Alloc/Serves.antt =====
-- kernel/src/allocator.c: requests that `allocator_malloc` serves, and the first of them.
use native.Mathlib.Nat.{pow-le-pow_right, div-lt_iff_lt-mul}
use so_rtos.Base.{
  ℕ, zero, suc, Option, none, some, Bool, true, false, not, is_null, ◌≡◌, refl, sym, ap, subst, ◌∙◌,
  arith, ◌+◌, ◌-◌, ◌/◌, ◌^◌, ◌≤◌, ◌<◌, ◌==◌, ◌&&◌, ◌||◌, dec_lt, leb, if_false, if◌then◌else◌,
}
use so_rtos.Alloc.{
  msb_from, find_msb_index, second_index, mapping_indices_calc, rounded_up, block_overhead,
}
use so_rtos.Alloc.Bits.{find_msb_index-Bounds}
use so_rtos.Alloc.Blocks.{Heap, request_size, take_block, block_locate_free, allocator_malloc}
use so_rtos.Alloc.Mapping.{
  pow_positive, pow_split, rounded_up-Large, rounded_up-Small, mapping_indices_calc-large,
}
use so_rtos.Alloc.Search.{Filed}
use so_rtos.Alloc.Found.{IsMapped, block_locate_free-found}
use so_rtos.Alloc.Fits.{request_size-Bounds}
use so_rtos.Alloc.Init.{IsOneBlock}

rounded_up-share : (size : ℕ) → 16 ≤ size → size < 2 ^ 30 → rounded_up size ≤ size + size / 32
rounded_up-share size least small = elim (dec_lt (find_msb_index size) 5) [
  | yes h ↦ let e = rounded_up-Small size (find_msb_index size) refl h in omega arith
  | no h ↦
      let e = rounded_up-Large size (find_msb_index size) refl (omega arith) in
      let (low, _) = find_msb_index-Bounds size (omega arith) (omega arith) in
      let split = pow_split (find_msb_index size) (omega arith) in omega arith
]

request_size-least : (n : ℕ) → 0 < n → n < 2 ^ 29 → 16 ≤ request_size n
request_size-least n pos bound = ground arith

-- When the bitmaps and the lists agree, every block on a list is on that of its size, and one at the
-- head of a list has a size below 2^32 of at least the request's block and a 32nd part more,
-- `allocator_malloc` of at least one byte and less than 2^29 does not return NULL.
pub allocator_malloc-serves :
    (h : Heap) (n fl sl b : ℕ)
    → IsMapped h
    → Filed h
    → 0 < n
    → n < 2 ^ 29
    → h.blocks fl sl ≡ some b
    → request_size n + request_size n / 32 ≤ (h.header b).size
    → (h.header b).size < 2 ^ 32
    → (p : ℕ) × ((allocator_malloc h n).0 ≡ some p)
unfolding allocator_malloc take_block
allocator_malloc-serves h n fl sl b mapped filed pos bound listed fits word =
    let req_size = request_size n in
    let (_, small, _) = request_size-Bounds n bound in
    let least = request_size-least n pos bound in
    let share = rounded_up-share req_size least small in
    let (c, found) =
      block_locate_free-found h req_size fl sl b mapped filed least small listed (omega arith)
        word in
    (
      c + block_overhead,
      ap (λ (r : Option ℕ × Heap). r.0)
            (if_false (none, h) (take_block h req_size (block_locate_free h req_size))
              {b = n == 0 || leb (2 ^ 32) (n + block_overhead)} (ground arith))
          ∙ ap (λ o. (take_block h req_size o).0) found,
    )

msb_from-bound : (rounds n : ℕ) → msb_from rounds n ≤ rounds
unfolding msb_from
msb_from-bound zero n = omega arith
msb_from-bound (suc rounds) n = let rest = msb_from-bound rounds (n / 2) in ground arith

find_msb_index-bound : (n : ℕ) → find_msb_index n < 32
unfolding find_msb_index
find_msb_index-bound n = let bound = msb_from-bound 31 n in omega arith

second_index-bound : (f a : ℕ) → a < 2 ^ suc f → second_index a f < 32
unfolding second_index
second_index-bound f a h = elim (dec_lt f 5) [
  | yes small ↦
      let step = pow-le-pow_right {n = 2} (omega arith) {i = suc f} {j = 5} (omega arith) in
      ground arith
  | no large ↦
      let split = pow_split f (omega arith) in
      let bound : a / 2 ^ (f - 5) < 64 =
        (div-lt_iff_lt-mul (pow_positive (f - 5))).1 (omega arith) in
      ground arith
]

mapping_indices_calc-bound :
    (size : ℕ)
    → 16 ≤ size
    → size < 2 ^ 32
    → ((mapping_indices_calc size).0 < 32) × ((mapping_indices_calc size).1 < 32)
mapping_indices_calc-bound size least word =
    let (_, high) = find_msb_index-Bounds size (omega arith) word in
    rw (mapping_indices_calc-large size least)
      (find_msb_index-bound size, second_index-bound (find_msb_index size) size high)

chosen-bit : (c : Bool) (b : ℕ) → c ≡ not (is_null (if c then some b else none))
chosen-bit true b = refl
chosen-bit false b = refl

both_same : (i fl j sl : ℕ) → (i == fl && j == sl) ≡ true → (i ≡ fl) × (j ≡ sl) × ((i == fl) ≡ true)
both_same i fl j sl e = (ground (arith, e), ground (arith, e), ground (arith, e))

both_set : (i fl sl : ℕ) → (i == fl) ≡ true → (i == fl && sl == sl) ≡ true
both_set i fl sl e = ground (arith, e)

-- In a heap of one block the bitmaps and the lists agree.
pub IsOneBlock-IsMapped :
    (h : Heap)
    → IsOneBlock h
    → 16 ≤ h.heap_end - h.heap_start
    → h.heap_end - h.heap_start < 2 ^ 32
    → IsMapped h
IsOneBlock-IsMapped h one least word =
    let whole = h.heap_end - h.heap_start in
    let (fl, sl) = mapping_indices_calc whole in
    let (first_range, second_range) = mapping_indices_calc-bound whole least word in
    record {
      sl_bits = λ i j.
          one.sl_bits i j
          ∙ chosen-bit (i == fl && j == sl) h.heap_start
          ∙ ap (λ o. not (is_null o)) (sym (one.lists i j));
      fl_bits = λ i set.
          (sl, second_range, one.sl_bits i sl ∙ both_set i fl sl (sym (one.fl_bits i) ∙ set));
      listed = λ i j set.
          let both : (i == fl && j == sl) ≡ true = sym (one.sl_bits i j) ∙ set in
          let (at_fl, at_sl, bit) = both_same i fl j sl both in
          (
            one.fl_bits i ∙ bit,
            subst (λ k. k < 32) (sym at_fl) first_range,
            subst (λ k. k < 32) (sym at_sl) second_range,
          );
    }
