-- ===== src/Alloc/Realloc.antt =====
-- kernel/src/allocator.c: `allocator_realloc`. The bytes that callers keep in their blocks are a
-- function from addresses.
use so_rtos.Base.{
  ℕ, Option, none, some, Bool, true, false, ◌≡◌, refl, sym, ap, subst, ◌∙◌, inl, inr, arith, ◌+◌,
  ◌-◌, ◌%◌, ◌^◌, ◌≤◌, ◌<◌, Bool-cases, if_true, if_false, if◌then◌else◌, ◌==◌, ltb, leb, ◌&&◌,
  sub32, add32,
}
use so_rtos.Queue.{memcpy_to}
use so_rtos.Alloc.{block_overhead, block_min_size, align}
use so_rtos.Alloc.Blocks.{
  Block, Heap, change, change_inside, block_remove, block_trim, allocator_malloc, allocator_free,
}
use so_rtos.Alloc.Sizes.{block_trim-size, change_inside-size}

-- The size that is wanted.
abbrev resized : ℕ → ℕ
resized new_size =
    let req_size = align ((new_size + block_overhead) % 2 ^ 32) in
    if ltb req_size block_min_size then block_min_size else req_size

-- The block is cut down to the size if the rest is a block, and the rest leaves the allocated bytes.
unfoldable pub cut_down : Heap → ℕ → ℕ → Heap
unfolding block_trim
cut_down h block req_size =
    let rest = (h.header block).size - req_size in
    let h₁ = block_trim h block req_size in
    if leb block_min_size rest then record h₁ { allocated_mem = sub32 h₁.allocated_mem rest } else h

-- The block takes the free block behind it.
unfoldable pub take_next : Heap → ℕ → ℕ → Heap
unfolding block_remove
take_next h block next =
    let next_size = (h.header next).size in
    let combined_size = (h.header block).size + next_size in
    let h₁ = block_remove h next in
    let h₂ = record h₁ {
      free_mem = sub32 h₁.free_mem (next_size - block_overhead);
      free_blocks = sub32 h₁.free_blocks 1;
    } in
    let h₃ = change h₂ block (λ b. record b { size = combined_size; is_free = false }) in
    let h₄ =
      change_inside h₃ (block + combined_size) (λ b. record b { prev_phys_block = some block }) in
    record h₄ { allocated_mem = add32 h₄.allocated_mem next_size }

-- The two cases in which the block stays where it is; `none` stands for the third.
unfoldable pub resize_in_place : Heap → ℕ → ℕ → Option Heap
unfolding cut_down take_next
resize_in_place h block req_size =
    let curr_size = (h.header block).size in
    let next = block + curr_size in
    let grown = cut_down (take_next h block next) block req_size in
    if leb req_size curr_size
    then some (cut_down h block req_size)
    else if (ltb next h.heap_end && (h.header next).is_free)
        && leb req_size (curr_size + (h.header next).size)
    then some grown
    else none

-- The third case: a new block, to which the bytes are copied.
unfoldable pub moved : ℕ → ℕ → (ℕ → ℕ) → Option ℕ × Heap → Option ℕ × (Heap × (ℕ → ℕ))
unfolding allocator_free
moved ptr length memory (none, h) = (none, (h, memory))
moved ptr length memory (some new_ptr, h) = (
  some new_ptr,
  (allocator_free h (some ptr), memcpy_to memory new_ptr (λ j. memory (ptr + j)) length),
)

unfoldable pub resize_or_move : Heap → (ℕ → ℕ) → ℕ → ℕ → Option Heap → Option ℕ × (Heap × (ℕ → ℕ))
unfolding moved allocator_malloc
resize_or_move h memory ptr new_size (some h') = (some ptr, (h', memory))
resize_or_move h memory ptr new_size none =
    let curr_size = (h.header (ptr - block_overhead)).size in
    moved ptr (curr_size - block_overhead) memory (allocator_malloc h new_size)

unfoldable pub allocator_realloc : Heap → (ℕ → ℕ) → Option ℕ → ℕ → Option ℕ × (Heap × (ℕ → ℕ))
unfolding resize_or_move resize_in_place allocator_free allocator_malloc
allocator_realloc h memory none new_size =
    let (result, h') = allocator_malloc h new_size in (result, (h', memory))
allocator_realloc h memory (some ptr) new_size =
    let in_place = resize_in_place h (ptr - block_overhead) (resized new_size) in
    if new_size == 0
    then (none, (allocator_free h (some ptr), memory))
    else resize_or_move h memory ptr new_size in_place

-- Cutting a block down leaves it at least the wanted size.
cut_down-size :
    (h : Heap) (block req_size : ℕ)
    → 0 < req_size
    → req_size ≤ (h.header block).size
    → req_size ≤ ((cut_down h block req_size).header block).size
unfolding cut_down
cut_down-size h block req_size pos fits =
    let rest = (h.header block).size - req_size in
    let h₁ = block_trim h block req_size in
    let h₂ = record h₁ { allocated_mem = sub32 h₁.allocated_mem rest } in
    let size_in : Heap → ℕ = λ g. (g.header block).size in
    elim (Bool-cases (leb block_min_size rest)) [
      | inl splits ↦
          subst (λ n. req_size ≤ n) (sym (ap size_in (if_true h₂ h splits)))
            (block_trim-size h block req_size pos fits)
      | inr whole ↦ subst (λ n. req_size ≤ n) (sym (ap size_in (if_false h₂ h whole))) fits
    ]

-- A block that takes the next one has the size of both.
take_next-size :
    (h : Heap) (block next : ℕ)
    → ((take_next h block next).header block).size ≡ (h.header block).size + (h.header next).size
unfolding take_next
take_next-size h block next =
    let next_size = (h.header next).size in
    let combined_size = (h.header block).size + next_size in
    let h₁ = block_remove h next in
    let grown : Block → Block = λ b. record b { size = combined_size; is_free = false } in
    let h₂ = record h₁ {
      free_mem = sub32 h₁.free_mem (next_size - block_overhead);
      free_blocks = sub32 h₁.free_blocks 1;
    } in
    change_inside-size (change h₂ block grown) (block + combined_size) block
      (λ b. record b { prev_phys_block = some block }) (λ x. refl)
    ∙ ap (λ (b : Block). b.size)
        (if_true (grown (h₂.header block)) (h₂.header block) {b = block == block} (ground arith))

none_below : (h : Heap) (x y : ℕ) → none ≡ some h → x ≤ y
none_below h x y e = ground (arith, e)

second_holds : (a : Bool) (x y : ℕ) → a && leb x y ≡ true → x ≤ y
second_holds true x y e = ground (arith, e)
second_holds false x y e = ground (arith, e)

-- When the answer of `resize_in_place` is a heap, the block has at least the wanted size in it.
pub resize_in_place-size :
    (h h' : Heap) (block req_size : ℕ)
    → 0 < req_size
    → resize_in_place h block req_size ≡ some h'
    → req_size ≤ (h'.header block).size
unfolding resize_in_place
resize_in_place-size h h' block req_size pos e =
    let curr_size = (h.header block).size in
    let next = block + curr_size in
    let combined = curr_size + (h.header next).size in
    let free = ltb next h.heap_end && (h.header next).is_free in
    let h₁ = take_next h block next in
    let grown = cut_down h₁ block req_size in
    let cut = cut_down h block req_size in
    let value : Option Heap → Heap = λ o. elim o [ none ↦ h' | some g ↦ g ] in
    let fits : Heap → Type 0 = λ g. req_size ≤ (g.header block).size in
    let other = if free && leb req_size combined then some grown else none in
    elim (Bool-cases (leb req_size curr_size)) [
      | inl shrinks ↦
          subst fits (ap value (sym (if_true (some cut) other shrinks) ∙ e))
            (cut_down-size h block req_size pos (second_holds true req_size curr_size shrinks))
      | inr grows ↦
          let e' : other ≡ some h' = sym (if_false (some cut) other grows) ∙ e in
          elim (Bool-cases (free && leb req_size combined)) [
            | inl takes ↦
                let enough = second_holds free req_size combined takes in
                subst fits (ap value (sym (if_true (some grown) none takes) ∙ e')) (
                  cut_down-size h₁ block req_size pos
                    (subst (λ n. req_size ≤ n) (sym (take_next-size h block next)) enough))
            | inr moves ↦
                let none_some : none ≡ some h' = sym (if_false (some grown) none moves) ∙ e' in
                none_below h' req_size (h'.header block).size none_some
          ]
    ]
