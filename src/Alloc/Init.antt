-- ===== src/Alloc/Init.antt =====
-- kernel/src/allocator.c: the heap that `allocator_init` leaves.
use so_rtos.Base.{
  ℕ, none, some, Bool, true, false, ◌≡◌, refl, ap, ◌∙◌, arith, ◌+◌, ◌-◌, ◌*◌, ◌/◌, update, ◌==◌,
  ◌&&◌, if◌then◌else◌, if_true, sub32,
}
use so_rtos.Alloc.{align, align_size, block_overhead, mapping_indices_calc}
use so_rtos.Alloc.Blocks.{Block, Heap, block_insert}

-- The heap is one free block between its ends. The block is the only one on the free lists, stands
-- on the list of its size, and the bitmaps have the bits of that list and no others.
pub record IsOneBlock (h : Heap) : Type 0 where
  pub size : (h.header h.heap_start).size ≡ h.heap_end - h.heap_start
  pub is_free : (h.header h.heap_start).is_free ≡ true
  pub prev_phys_block : (h.header h.heap_start).prev_phys_block ≡ none
  pub next_free : (h.header h.heap_start).next_free ≡ none
  pub prev_free : (h.header h.heap_start).prev_free ≡ none
  pub lists :
      (i j : ℕ)
      → let (fl, sl) = mapping_indices_calc (h.heap_end - h.heap_start) in
        h.blocks i j ≡ (if i == fl && j == sl then some h.heap_start else none)
  pub fl_bits : (i : ℕ) → h.fl_bitmap i ≡ i == (mapping_indices_calc (h.heap_end - h.heap_start)).0
  pub sl_bits :
      (i j : ℕ)
      → let (fl, sl) = mapping_indices_calc (h.heap_end - h.heap_start) in
        h.sl_bitmap i j ≡ (i == fl && j == sl)
  pub free_mem : h.free_mem ≡ h.heap_end - h.heap_start - block_overhead
  pub free_blocks : h.free_blocks ≡ 1
  pub allocated_mem : h.allocated_mem ≡ 0

-- What `allocator_init` has before it files the block.
abbrev pub fresh : (ℕ → Block) → ℕ → ℕ → Heap
fresh header start usable =
    let first : Block = record {
      size = usable;
      is_free = true;
      prev_phys_block = none;
      next_free = none;
      prev_free = none;
    } in
    record {
      header = λ a. if a == start then first else header a;
      blocks = λ fl sl. none;
      fl_bitmap = λ fl. false;
      sl_bitmap = λ fl sl. false;
      heap_start = start;
      heap_end = start + usable;
      mem_capacity = usable;
      free_mem = usable - block_overhead;
      allocated_mem = 0;
      free_blocks = 1;
      allocated_blocks = 0;
    }

-- The block in its list.
filed_header :
    (header : ℕ → Block) (start usable : ℕ)
    → (block_insert (fresh header start usable) start).header start ≡ record {
      size = usable;
      is_free = true;
      prev_phys_block = none;
      next_free = none;
      prev_free = none;
    }
unfolding block_insert
filed_header header start usable =
    let here : start == start ≡ true = ground arith in
    if_true _ _ {b = start == start} here
    ∙ ap (λ (b : Block). record b { next_free = none; prev_free = none })
        (if_true _ (header start) {b = start == start} here)

choose_row {ℓ} :
    {A : Type ℓ} (a b : Bool) (x y : A) (row : ℕ → A) (j : ℕ)
    → row j ≡ (if b then x else y)
    → (if a then row else (λ k. y)) j ≡ (if a && b then x else y)
choose_row true b x y row j e = e
choose_row false b x y row j e = refl

-- One value written to a table of which all else is the same.
one_entry {ℓ} :
    {A : Type ℓ} (fl sl i j : ℕ) (x y : A)
    → update (λ a b. y) fl (update (λ b. y) sl x) i j ≡ (if i == fl && j == sl then x else y)
one_entry fl sl i j x y = choose_row (i == fl) (j == sl) x y (update (λ b. y) sl x) j refl

same_bit : (b : Bool) → (if b then true else false) ≡ b
same_bit true = refl
same_bit false = refl

pub fresh-IsOneBlock :
    (header : ℕ → Block) (start usable : ℕ)
    → IsOneBlock (block_insert (fresh header start usable) start)
unfolding block_insert
fresh-IsOneBlock header start usable =
    let own = filed_header header start usable in
    let whole : usable ≡ start + usable - start = omega arith in
    let at : ((fresh header start usable).header start).size ≡ start + usable - start =
      ap (λ (b : Block). b.size) (if_true _ (header start) {b = start == start} (ground arith))
      ∙ whole in
    let list = ap mapping_indices_calc at in
    let (fl, sl) = mapping_indices_calc ((fresh header start usable).header start).size in
    record {
      size = ap (λ (b : Block). b.size) own ∙ whole;
      is_free = ap (λ (b : Block). b.is_free) own;
      prev_phys_block = ap (λ (b : Block). b.prev_phys_block) own;
      next_free = ap (λ (b : Block). b.next_free) own;
      prev_free = ap (λ (b : Block). b.prev_free) own;
      lists = λ i j.
          one_entry fl sl i j (some start) none
          ∙ ap (λ (p : ℕ × ℕ). if i == p.0 && j == p.1 then some start else none) list;
      fl_bits = λ i. same_bit (i == fl) ∙ ap (λ (p : ℕ × ℕ). i == p.0) list;
      sl_bits = λ i j.
          one_entry fl sl i j true false
          ∙ same_bit (i == fl && j == sl)
          ∙ ap (λ (p : ℕ × ℕ). i == p.0 && j == p.1) list;
      free_mem = ap (λ n. n - block_overhead) whole;
      free_blocks = refl;
      allocated_mem = refl;
    }

-- The bounds of the heap in its pool.
abbrev usable_size : ℕ → ℕ → ℕ
usable_size pool size = sub32 size (align pool - pool) / align_size * align_size
