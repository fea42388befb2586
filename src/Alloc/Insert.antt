-- ===== src/Alloc/Insert.antt =====
-- kernel/src/allocator.c: the free lists after `block_insert` and `allocator_init`.
use so_rtos.Base.{
  ℕ, Option, none, some, ◌≡◌, refl, sym, ap, subst, ◌∙◌, ◌⊎◌, inl, inr, arith, ◌≤◌, Bool-cases,
  if_true, if_false, ◌==◌, update,
}
use so_rtos.Alloc.{mapping_indices_calc}
use so_rtos.Alloc.Blocks.{Block, Heap, change, change_at, block_insert}
use so_rtos.Alloc.Search.{Filed}
use so_rtos.Alloc.Sizes.{block_insert-size}

change_at-blocks :
    (h : Heap) (o : Option ℕ) (f : Block → Block) → (change_at h o f).blocks ≡ h.blocks
change_at-blocks h none f = refl
change_at-blocks h (some b) f = refl

-- The heads of the lists after an insertion.
insert_head : (ℕ → ℕ → Option ℕ) → ℕ × ℕ → ℕ → ℕ → ℕ → Option ℕ
insert_head blocks (fl, sl) block = update blocks fl (update (blocks fl) sl (some block))

block_insert-blocks :
    (h : Heap) (block : ℕ)
    → (block_insert h block).blocks
      ≡ insert_head h.blocks (mapping_indices_calc (h.header block).size) block
unfolding block_insert insert_head
block_insert-blocks h block =
    let (fl, sl) = mapping_indices_calc (h.header block).size in
    let first = h.blocks fl sl in
    let h₁ = change h block (λ b. record b { next_free = first; prev_free = none }) in
    ap (λ (blocks : ℕ → ℕ → Option ℕ). update blocks fl (update (blocks fl) sl (some block)))
      (change_at-blocks h₁ first (λ b. record b { prev_free = some block }))

-- A head is the block that was inserted, in its list, or was there before.
insert_head-cases :
    (blocks : ℕ → ℕ → Option ℕ) (at : ℕ × ℕ) (block i j b : ℕ)
    → insert_head blocks at block i j ≡ some b
    → ((at ≡ (i, j)) × (b ≡ block)) ⊎ (blocks i j ≡ some b)
unfolding insert_head
insert_head-cases blocks (fl, sl) block i j b e = elim (Bool-cases (i == fl)) [
  | inl same_fl ↦
      let fl_is : i ≡ fl = ground (arith, same_fl) in
      let here : update (blocks fl) sl (some block) j ≡ some b =
        sym (ap (λ (f : ℕ → Option ℕ). f j) (if_true _ (blocks i) {b = i == fl} same_fl)) ∙ e in
      elim (Bool-cases (j == sl)) [
        | inl same_sl ↦
            let sl_is : j ≡ sl = ground (arith, same_sl) in
            let hit : some block ≡ some b =
              sym (if_true _ (blocks fl j) {b = j == sl} same_sl) ∙ here in
            inl (sym (ap (λ n. (n, j)) fl_is ∙ ap (λ n. (fl, n)) sl_is), ground (arith, hit))
        | inr other ↦
            inr (
              ap (λ n. blocks n j) fl_is
              ∙ sym (if_false _ (blocks fl j) {b = j == sl} other)
              ∙ here)
      ]
  | inr other ↦
      inr (sym (ap (λ (f : ℕ → Option ℕ). f j) (if_false _ (blocks i) {b = i == fl} other)) ∙ e)
]

-- A block on a free list after the insertion was filed before it, or is the inserted one.
on_list :
    (h : Heap) (block i j b : ℕ)
    → Filed h
    → 16 ≤ (h.header block).size
    → (block_insert h block).blocks i j ≡ some b
    → (mapping_indices_calc (h.header b).size ≡ (i, j)) × (16 ≤ (h.header b).size)
on_list h block i j b filed least e =
    let at = mapping_indices_calc (h.header block).size in
    let head = sym (ap (λ (f : ℕ → ℕ → Option ℕ). f i j) (block_insert-blocks h block)) ∙ e in
    elim (insert_head-cases h.blocks at block i j b head) [
      | inl (here, is_block) ↦ (
        ap (λ a. mapping_indices_calc (h.header a).size) is_block ∙ here,
        subst (λ a. 16 ≤ (h.header a).size) (sym is_block) least,
      )
      | inr before ↦ (filed.in_list i j b before, filed.at_least i j b before)
    ]

-- `block_insert` of a block of at least the smallest size keeps every block on a free list in the
-- list of its size.
pub block_insert-Filed :
    (h : Heap) (block : ℕ) → Filed h → 16 ≤ (h.header block).size → Filed (block_insert h block)
block_insert-Filed h block filed least = record {
  in_list = λ i j b e.
      ap mapping_indices_calc (block_insert-size h block b)
      ∙ (on_list h block i j b filed least e).0;
  at_least = λ i j b e.
      subst (λ n. 16 ≤ n) (sym (block_insert-size h block b))
        (on_list h block i j b filed least e).1;
}
