-- ===== src/Alloc/Sizes.antt =====
-- kernel/src/allocator.c: which calls change the size of a block.
use so_rtos.Base.{
  ℕ, Option, none, some, true, false, ◌≡◌, ◌≢◌, refl, sym, ap, subst, ◌∙◌, inl, inr, arith, ◌+◌,
  ◌-◌, ◌≤◌, ◌<◌, Bool-cases, if_true, if_false, ◌==◌, ltb, add32, leb, ◌&&◌,
}
use so_rtos.Alloc.{mapping_indices_calc, block_overhead, block_min_size}
use so_rtos.Alloc.Blocks.{
  Block, Heap, change, change_at, change_inside, block_insert, unlink_free, clear_bits,
  block_remove, reclaim_header, block_merge_next, block_trim,
}

-- A write that keeps the size keeps every size.
change-size :
    (h : Heap) (b j : ℕ) (f : Block → Block)
    → ((x : Block) → (f x).size ≡ x.size)
    → ((change h b f).header j).size ≡ (h.header j).size
change-size h b j f keeps = elim (Bool-cases (j == b)) [
  | inl same ↦
      ap (λ (x : Block). x.size) (if_true (f (h.header b)) (h.header j) same)
      ∙ keeps (h.header b)
      ∙ ap (λ (a : ℕ). (h.header a).size) (ground (arith, same))
  | inr other ↦ ap (λ (x : Block). x.size) (if_false (f (h.header b)) (h.header j) other)
]

change_at-size :
    (h : Heap) (o : Option ℕ) (j : ℕ) (f : Block → Block)
    → ((x : Block) → (f x).size ≡ x.size)
    → ((change_at h o f).header j).size ≡ (h.header j).size
change_at-size h none j f keeps = refl
change_at-size h (some b) j f keeps = change-size h b j f keeps

pub change_inside-size :
    (h : Heap) (b j : ℕ) (f : Block → Block)
    → ((x : Block) → (f x).size ≡ x.size)
    → ((change_inside h b f).header j).size ≡ (h.header j).size
change_inside-size h b j f keeps = elim (Bool-cases (ltb b h.heap_end)) [
  | inl inside ↦
      ap (λ (g : Heap). (g.header j).size) (if_true (change h b f) h inside)
      ∙ change-size h b j f keeps
  | inr outside ↦ ap (λ (g : Heap). (g.header j).size) (if_false (change h b f) h outside)
]

-- A write to another header keeps the size of this one.
change-other :
    (h : Heap) (b j : ℕ) (f : Block → Block)
    → j ≢ b
    → ((change h b f).header j).size ≡ (h.header j).size
change-other h b j f other =
    ap (λ (x : Block). x.size) (if_false (f (h.header b)) (h.header j) (ground (arith, other)))

pub block_insert-size :
    (h : Heap) (block j : ℕ) → ((block_insert h block).header j).size ≡ (h.header j).size
unfolding block_insert
block_insert-size h block j =
    let (fl, sl) = mapping_indices_calc (h.header block).size in
    let first = h.blocks fl sl in
    let h₁ = change h block (λ b. record b { next_free = first; prev_free = none }) in
    change_at-size h₁ first j (λ b. record b { prev_free = some block }) (λ x. refl)
    ∙ change-size h block j (λ b. record b { next_free = first; prev_free = none }) (λ x. refl)

unlink_free-size :
    (h : Heap) (fl sl : ℕ) (b : Block) (o : Option ℕ) (j : ℕ)
    → ((unlink_free h fl sl b o).header j).size ≡ (h.header j).size
unfolding unlink_free
unlink_free-size h fl sl b none j = refl
unlink_free-size h fl sl b (some prev) j =
    change-size h prev j (λ c. record c { next_free = b.next_free }) (λ x. refl)

clear_bits-header : (h : Heap) (fl sl : ℕ) → (clear_bits h fl sl).header ≡ h.header
unfolding clear_bits
clear_bits-header h fl sl = ground arith

-- Removing a block from its free list changes no size.
pub block_remove-size :
    (h : Heap) (block j : ℕ) → ((block_remove h block).header j).size ≡ (h.header j).size
unfolding block_remove
block_remove-size h block j =
    let b = h.header block in
    let (fl, sl) = mapping_indices_calc b.size in
    let h₁ = unlink_free h fl sl b b.prev_free in
    let h₂ = change_at h₁ b.next_free (λ c. record c { prev_free = b.prev_free }) in
    ap (λ (g : ℕ → Block). (g j).size) (clear_bits-header h₂ fl sl)
    ∙ change_at-size h₁ b.next_free j (λ c. record c { prev_free = b.prev_free }) (λ x. refl)
    ∙ unlink_free-size h fl sl b b.prev_free j

-- Merging a block with the next one changes the size of that block alone.
block_merge_next-other :
    (h : Heap) (block j : ℕ)
    → j ≢ block
    → ((block_merge_next h block).header j).size ≡ (h.header j).size
unfolding block_merge_next
block_merge_next-other h block j other =
    let next = block + (h.header block).size in
    let h₁ = reclaim_header (block_remove h next) in
    let total = (h₁.header block).size + (h₁.header next).size in
    let h₂ = change h₁ block (λ b. record b { size = total }) in
    let h₃ = change_inside h₂ (block + total) (λ b. record b { prev_phys_block = some block }) in
    elim (Bool-cases (ltb next h.heap_end && (h.header next).is_free)) [
      | inl merges ↦
          ap (λ (g : Heap). (g.header j).size) (if_true h₃ h merges)
          ∙ change_inside-size h₂ (block + total) j (λ b. record b { prev_phys_block = some block })
              (λ x. refl)
          ∙ change-other h₁ block j (λ b. record b { size = total }) other
          ∙ block_remove-size h next j
      | inr stays ↦ ap (λ (g : Heap). (g.header j).size) (if_false h₃ h stays)
    ]

-- A block that is trimmed to a size it has is left at least that size.
pub block_trim-size :
    (h : Heap) (block size : ℕ)
    → 0 < size
    → size ≤ (h.header block).size
    → size ≤ ((block_trim h block size).header block).size
unfolding block_trim
block_trim-size h block size pos fits =
    let remaining_size = (h.header block).size - size in
    let remaining = block + size in
    let h₁ =
      change h remaining
        (λ b. record b { size = remaining_size; is_free = true; prev_phys_block = some block }) in
    let h₂ = change h₁ block (λ b. record b { size = size; is_free = false }) in
    let h₃ =
      change_inside h₂ (remaining + remaining_size)
        (λ b. record b { prev_phys_block = some remaining }) in
    let h₄ = block_insert (block_merge_next h₃ remaining) remaining in
    let cut : ((h₂.header block).size ≡ size) =
      ap (λ (x : Block). x.size)
        (if_true _ (h₁.header block) {b = block == block} (ground arith)) in
    let kept : (h₄.header block).size ≡ size =
      block_insert-size (block_merge_next h₃ remaining) remaining block
      ∙ block_merge_next-other h₃ remaining block (λ e. ground (arith, e))
      ∙ change_inside-size h₂ (remaining + remaining_size) block
          (λ b. record b { prev_phys_block = some remaining }) (λ x. refl)
      ∙ cut in
    let h₅ = record h₄ {
      free_blocks = add32 h₄.free_blocks 1;
      free_mem = add32 h₄.free_mem (remaining_size - block_overhead);
    } in
    let size_in : Heap → ℕ = λ g. (g.header block).size in
    elim (Bool-cases (leb block_min_size remaining_size)) [
      | inl splits ↦
          subst (λ n. size ≤ n) (sym (ap size_in (if_true h₅ h splits) ∙ kept)) (omega arith)
      | inr whole ↦ subst (λ n. size ≤ n) (sym (ap size_in (if_false h₅ h whole))) fits
    ]
