-- ===== src/Alloc/Blocks.antt =====
-- kernel/src/allocator.c: blocks in memory, their free lists, and the calls of the allocator.
use so_rtos.Base.{
  ℕ, Option, none, some, Bool, true, false, ◌&&◌, ◌||◌, ◌==◌, ltb, leb, is_null, ◌+◌, ◌-◌, ◌*◌, ◌/◌,
  ◌^◌, if◌then◌else◌, update, sub32, add32,
}
use so_rtos.Alloc.{
  align, align_size, block_overhead, block_min_size, lsb_from, mapping_indices_calc,
  mapping_indices_search,
}

-- `block_header_t`.
pub record Block : Type 0 where
  pub size : ℕ
  pub is_free : Bool
  pub prev_phys_block : Option ℕ
  pub next_free : Option ℕ
  pub prev_free : Option ℕ

-- The headers in memory, `control`, and the other globals of the file.
pub record Heap : Type 0 where
  pub header : ℕ → Block
  pub blocks : ℕ → ℕ → Option ℕ
  pub fl_bitmap : ℕ → Bool
  pub sl_bitmap : ℕ → ℕ → Bool
  pub heap_start : ℕ
  pub heap_end : ℕ
  pub mem_capacity : ℕ
  pub free_mem : ℕ
  pub allocated_mem : ℕ
  pub free_blocks : ℕ
  pub allocated_blocks : ℕ

-- A write to a header, through a pointer that may be NULL.
abbrev pub change : Heap → ℕ → (Block → Block) → Heap
change h b f = record h { header = update h.header b (f (h.header b)) }

abbrev pub change_at : Heap → Option ℕ → (Block → Block) → Heap
change_at h none f = h
change_at h (some b) f = change h b f

-- A write to the header that begins at the address, if that is inside the heap.
abbrev pub change_inside : Heap → ℕ → (Block → Block) → Heap
change_inside h b f = if ltb b h.heap_end then change h b f else h

abbrev set_head : Heap → ℕ → ℕ → Option ℕ → Heap
set_head h fl sl p = record h { blocks = update h.blocks fl (update (h.blocks fl) sl p) }

abbrev set_sl : Heap → ℕ → ℕ → Bool → Heap
set_sl h fl sl x = record h { sl_bitmap = update h.sl_bitmap fl (update (h.sl_bitmap fl) sl x) }

abbrev set_fl : Heap → ℕ → Bool → Heap
set_fl h fl x = record h { fl_bitmap = λ i. if i == fl then x else h.fl_bitmap i }

-- `block_insert`.
unfoldable pub block_insert : Heap → ℕ → Heap
block_insert h block =
    let (fl, sl) = mapping_indices_calc (h.header block).size in
    let first = h.blocks fl sl in
    let h₁ = change h block (λ b. record b { next_free = first; prev_free = none }) in
    let h₂ = change_at h₁ first (λ b. record b { prev_free = some block }) in
    set_sl (set_fl (set_head h₂ fl sl (some block)) fl true) fl sl true

-- `block_remove`.
unfoldable pub unlink_free : Heap → ℕ → ℕ → Block → Option ℕ → Heap
unlink_free h fl sl b none = set_head h fl sl b.next_free
unlink_free h fl sl b (some prev) = change h prev (λ c. record c { next_free = b.next_free })

unfoldable pub clear_bits : Heap → ℕ → ℕ → Heap
clear_bits h fl sl =
    let h' = set_sl h fl sl false in
    if is_null (h.blocks fl sl)
    then (if is_null (lsb_from 32 (h'.sl_bitmap fl) 0) then set_fl h' fl false else h')
    else h

unfoldable pub block_remove : Heap → ℕ → Heap
unfolding unlink_free clear_bits
block_remove h block =
    let b = h.header block in
    let (fl, sl) = mapping_indices_calc b.size in
    let h₁ = unlink_free h fl sl b b.prev_free in
    clear_bits (change_at h₁ b.next_free (λ c. record c { prev_free = b.prev_free })) fl sl

-- The header of a block that is merged becomes free memory.
abbrev pub reclaim_header : Heap → Heap
reclaim_header h = record h {
  free_mem = add32 h.free_mem block_overhead;
  free_blocks = sub32 h.free_blocks 1;
}

-- `block_merge_prev`.
unfoldable pub merge_into : Heap → ℕ → Option ℕ → ℕ × Heap
unfolding block_remove
merge_into h block none = (block, h)
merge_into h block (some prev) =
    let h₁ = reclaim_header (block_remove h prev) in
    let total = (h₁.header prev).size + (h₁.header block).size in
    let h₂ = change h₁ prev (λ b. record b { size = total }) in
    if (h.header prev).is_free
    then (prev, change_inside h₂ (prev + total) (λ b. record b { prev_phys_block = some prev }))
    else (block, h)

unfoldable pub block_merge_prev : Heap → ℕ → ℕ × Heap
unfolding merge_into
block_merge_prev h block = merge_into h block (h.header block).prev_phys_block

-- `block_merge_next`.
unfoldable pub block_merge_next : Heap → ℕ → Heap
unfolding block_remove
block_merge_next h block =
    let next = block + (h.header block).size in
    let h₁ = reclaim_header (block_remove h next) in
    let total = (h₁.header block).size + (h₁.header next).size in
    let h₂ = change h₁ block (λ b. record b { size = total }) in
    if ltb next h.heap_end && (h.header next).is_free
    then change_inside h₂ (block + total) (λ b. record b { prev_phys_block = some block })
    else h

-- `block_trim`.
unfoldable pub block_trim : Heap → ℕ → ℕ → Heap
unfolding block_merge_next block_insert
block_trim h block size =
    let remaining_size = (h.header block).size - size in
    let remaining = block + size in
    let h₁ =
      change h remaining
        (λ b. record b { size = remaining_size; is_free = true; prev_phys_block = some block }) in
    let h₂ = change h₁ block (λ b. record b { size = size; is_free = false }) in
    let h₃ =
      change_inside h₂ (remaining + remaining_size)
        (λ b. record b { prev_phys_block = some remaining }) in
    let h₄ = block_insert (block_merge_next h₃ remaining) remaining in
    if leb block_min_size remaining_size
    then record h₄ {
      free_blocks = add32 h₄.free_blocks 1;
      free_mem = add32 h₄.free_mem (remaining_size - block_overhead);
    }
    else h

-- `block_locate_free`.
abbrev pub head_at : Heap → ℕ → Option ℕ → Option ℕ
head_at h fl none = none
head_at h fl (some sl) = h.blocks fl sl

unfoldable pub locate_higher : Heap → Option ℕ → Option ℕ
locate_higher h none = none
locate_higher h (some fl) = head_at h fl (lsb_from 32 (h.sl_bitmap fl) 0)

unfoldable pub locate_at : Heap → ℕ → Option ℕ → Option ℕ
unfolding locate_higher
locate_at h fl none = locate_higher h (lsb_from (31 - fl) h.fl_bitmap (fl + 1))
locate_at h fl (some sl) = h.blocks fl sl

unfoldable pub block_locate_free : Heap → ℕ → Option ℕ
unfolding locate_at
block_locate_free h size =
    let (fl, sl) = mapping_indices_search size in
    locate_at h fl (lsb_from (32 - sl) (h.sl_bitmap fl) sl)

-- `allocator_init`.
unfoldable pub allocator_init : (ℕ → Block) → ℕ → ℕ → Option Heap
unfolding block_insert
allocator_init header pool size =
    let start = align pool in
    let usable = sub32 size (start - pool) / align_size * align_size in
    let first : Block = record {
      size = usable;
      is_free = true;
      prev_phys_block = none;
      next_free = none;
      prev_free = none;
    } in
    let h : Heap = record {
      header = λ a. if a == start then first else header a;
      blocks = λ fl sl. none;
      fl_bitmap = λ fl. false;
      sl_bitmap = λ fl sl. false;
      heap_start = start;
      heap_end = start + usable;
      mem_capacity = usable;
      free_mem = usable - block_overhead;
      allocated_mem = 0;
      free_blocks = 1;
      allocated_blocks = 0;
    } in
    if ltb usable block_min_size then none else some (block_insert h start)

-- `allocator_malloc`.
abbrev pub request_size : ℕ → ℕ
request_size size =
    if ltb (size + block_overhead) block_min_size
    then block_min_size
    else align (size + block_overhead)

unfoldable pub take_block : Heap → ℕ → Option ℕ → Option ℕ × Heap
unfolding block_remove block_trim
take_block h req_size none = (none, h)
take_block h req_size (some block) =
    let h₁ = block_remove h block in
    let h₂ = record h₁ {
      free_mem = sub32 h₁.free_mem ((h₁.header block).size - block_overhead);
      free_blocks = sub32 h₁.free_blocks 1;
    } in
    let h₃ = change (block_trim h₂ block req_size) block (λ b. record b { is_free = false }) in
    (
      some (block + block_overhead),
      record h₃ {
        allocated_mem = add32 h₃.allocated_mem ((h₃.header block).size - block_overhead);
        allocated_blocks = add32 h₃.allocated_blocks 1;
      },
    )

unfoldable pub allocator_malloc : Heap → ℕ → Option ℕ × Heap
unfolding take_block block_locate_free
allocator_malloc h size =
    let req_size = request_size size in
    if size == 0 || leb (2 ^ 32) (size + block_overhead)
    then (none, h)
    else take_block h req_size (block_locate_free h req_size)

-- `allocator_free`.
unfoldable pub free_block_at : Heap → ℕ → Heap
unfolding block_merge_prev block_merge_next block_insert
free_block_at h block =
    let size = (h.header block).size in
    let h₁ = record h {
      allocated_mem = sub32 h.allocated_mem (size - block_overhead);
      allocated_blocks = sub32 h.allocated_blocks 1;
      free_mem = add32 h.free_mem (size - block_overhead);
      free_blocks = add32 h.free_blocks 1;
    } in
    let h₂ = change h₁ block (λ b. record b { is_free = true }) in
    let (merged, h₃) = block_merge_prev h₂ block in block_insert (block_merge_next h₃ merged) merged

unfoldable pub allocator_free : Heap → Option ℕ → Heap
unfolding free_block_at
allocator_free h none = h
allocator_free h (some ptr) = free_block_at h (ptr - block_overhead)

-- `allocator_is_heap_pointer`.
unfoldable pub allocator_is_heap_pointer : Heap → ℕ → Bool
allocator_is_heap_pointer h ptr = leb h.heap_start ptr && ltb ptr h.heap_end
