-- ===== src/Mempool.antt =====
-- kernel/src/mempool.c: pools of blocks of one size. `links` is the pointer that stands in the first
-- word of a block; blocks are at least a pointer apart, so that those words do not overlap. The
-- allocator is a parameter: the blocks that it returned, or NULL. Its blocks lie in the address space,
-- so that the addresses inside one do not wrap.
pub mod Blocks
use so_rtos.Base.{
  ℕ, zero, suc, Option, none, some, ◌-◌, ◌+◌, ◌*◌, ◌/◌, ◌%◌, ◌^◌, ltb, leb, ◌==◌, ◌||◌, is_null,
  update, if◌then◌else◌,
}

-- `struct mempool`; `buffer` is the address of the block of memory.
pub record Mempool : Type 0 where
  pub buffer : ℕ
  pub item_size : ℕ
  pub count : ℕ
  pub free_list : Option ℕ

-- `ALIGN_SIZE` on the 32-bit target, `ALIGN`, and the size that an item takes.
abbrev pub align_size : ℕ
align_size = 4

abbrev pub align : ℕ → ℕ
align size = (size + (align_size - 1)) % 2 ^ 32 / align_size * align_size

abbrev pub real_size : ℕ → ℕ
real_size item_size = align (if ltb item_size align_size then align_size else item_size)

-- The loop of `mempool_create` that links each block to the next, and the write behind it.
unfoldable pub thread_blocks : ℕ → ℕ → (ℕ → Option ℕ) → ℕ → ℕ → Option ℕ
thread_blocks zero size links ptr = update links ptr none
thread_blocks (suc rounds) size links ptr =
    thread_blocks rounds size (update links ptr (some (ptr + size))) (ptr + size)

-- `mempool_create`.
unfoldable pub mempool_create :
    ℕ → ℕ → Option ℕ → Option ℕ → (ℕ → Option ℕ) → Option Mempool × (ℕ → Option ℕ)
unfolding thread_blocks
mempool_create item_size count pool none links = (none, links)
mempool_create item_size count pool (some buffer) links =
    if item_size == 0 || count == 0 || is_null pool then (none, links) else (
      some (record {
        buffer = buffer;
        item_size = real_size item_size;
        count = count;
        free_list = some buffer;
      }),
      thread_blocks (count - 1) (real_size item_size) links buffer,
    )

-- `mempool_alloc`.
unfoldable pub alloc_at : Mempool → (ℕ → Option ℕ) → Option ℕ → Option ℕ × Mempool
alloc_at pool links none = (none, pool)
alloc_at pool links (some ptr) = (some ptr, record pool { free_list = links ptr })

unfoldable pub mempool_alloc : Mempool → (ℕ → Option ℕ) → Option ℕ × Mempool
unfolding alloc_at
mempool_alloc pool links = alloc_at pool links pool.free_list

-- `mempool_free`.
unfoldable pub free_block : Mempool → (ℕ → Option ℕ) → ℕ → Mempool × (ℕ → Option ℕ)
free_block pool links ptr =
    if ltb ptr pool.buffer || leb ((pool.buffer + pool.count * pool.item_size) % 2 ^ 32) ptr
    then (pool, links)
    else (record pool { free_list = some ptr }, update links ptr pool.free_list)

unfoldable pub mempool_free : Mempool → (ℕ → Option ℕ) → Option ℕ → Mempool × (ℕ → Option ℕ)
unfolding free_block
mempool_free pool links none = (pool, links)
mempool_free pool links (some ptr) = free_block pool links ptr
