-- ===== src/Alloc/Fits.antt =====
-- kernel/src/allocator.c: what `allocator_malloc` hands out.
use so_rtos.Base.{
  ℕ, Option, none, some, false, ◌≡◌, refl, sym, ap, subst, inl, inr, arith, ◌+◌, ◌-◌, ◌%◌, ◌^◌, ◌≤◌,
  ◌<◌, Bool-cases, if_true, if_false, ◌==◌, leb, ◌||◌, sub32,
}
use so_rtos.Alloc.{block_overhead}
use so_rtos.Alloc.Blocks.{
  Block, Heap, change, block_remove, block_trim, take_block, allocator_malloc, request_size,
  block_locate_free,
}
use so_rtos.Alloc.Search.{Filed, block_locate_free-large}
use so_rtos.Alloc.Sizes.{block_remove-size, block_trim-size}

-- The answer to a request, from a heap: no memory and the heap as it was, or the address behind the
-- header of a block in use of at least the size.
abbrev pub Answers : Heap → ℕ → Option ℕ × Heap → Type 0
Answers h size (none, h') = h' ≡ h
Answers h size (some p, h') =
    (b : ℕ) × (p ≡ b + block_overhead)
    × (size ≤ (h'.header b).size)
    × ((h'.header b).is_free ≡ false)

take_block-Answers :
    (h : Heap) (req_size : ℕ) (o : Option ℕ)
    → 0 < req_size
    → ((b : ℕ) → o ≡ some b → req_size ≤ (h.header b).size)
    → Answers h req_size (take_block h req_size o)
unfolding take_block
take_block-Answers h req_size none pos large = refl
take_block-Answers h req_size (some block) pos large =
    let h₁ = block_remove h block in
    let h₂ = record h₁ {
      free_mem = sub32 h₁.free_mem ((h₁.header block).size - block_overhead);
      free_blocks = sub32 h₁.free_blocks 1;
    } in
    let h₃ = block_trim h₂ block req_size in
    let used : Block → Block = λ b. record b { is_free = false } in
    let same : ((change h₃ block used).header block) ≡ used (h₃.header block) =
      if_true _ (h₃.header block) {b = block == block} (ground arith) in
    let fits =
      subst (λ n. req_size ≤ n) (sym (block_remove-size h block block)) (large block refl) in
    (
      block,
      refl,
      subst (λ (b : Block). req_size ≤ b.size) (sym same)
          (block_trim-size h₂ block req_size pos fits),
      ap (λ (b : Block). b.is_free) same,
    )

pub request_size-Bounds :
    (n : ℕ)
    → n < 2 ^ 29
    → (n + block_overhead ≤ request_size n) × (request_size n < 2 ^ 30) × (request_size n % 2 ≡ 0)
request_size-Bounds n h = (ground arith, ground arith, ground arith)

at_most : (h : Heap) (a b : ℕ) (r : Option ℕ × Heap) → a ≤ b → Answers h b r → Answers h a r
at_most h a b (none, h') le answers = answers
at_most h a b (some p, h') le (block, e, fits, used) = (block, e, (omega arith), used)

-- When every block on a free list has the size of its list, `allocator_malloc` of less than 2^29
-- bytes answers with NULL and leaves the heap as it was, or with the address behind the header of a
-- block that is marked as used and has room for the header and the bytes.
pub allocator_malloc-Answers :
    (h : Heap) (n : ℕ)
    → Filed h
    → n < 2 ^ 29
    → Answers h (n + block_overhead) (allocator_malloc h n)
unfolding allocator_malloc
allocator_malloc-Answers h n filed bound =
    let req_size = request_size n in
    let (room, small, even) = request_size-Bounds n bound in
    let found = block_locate_free h req_size in
    elim (Bool-cases (n == 0 || leb (2 ^ 32) (n + block_overhead))) [
      | inl refused ↦
          subst (Answers h (n + block_overhead))
            (sym (if_true (none, h) (take_block h req_size found) refused)) refl
      | inr served ↦
          subst (Answers h (n + block_overhead))
            (sym (if_false (none, h) (take_block h req_size found) served))
            (at_most h (n + block_overhead) req_size (take_block h req_size found) room (
              take_block-Answers h req_size found (omega arith)
                (λ b e. block_locate_free-large h req_size b filed small even e)))
    ]
