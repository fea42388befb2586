-- ===== src/Alloc.antt =====
-- kernel/src/allocator.c: the two-level segregated fit allocator. A block is named by the address of
-- its header. The size word is two fields, the size and the flag in its lowest bit, and a bitmap is
-- a function from its bits. Logging is left out, and `allocator_init` of a pool that is too small is
-- `none`.
pub mod Blocks
pub mod Bits
pub mod Mapping
pub mod Search
pub mod Sizes
pub mod Fits
pub mod Insert
pub mod Init
pub mod Found
pub mod Serves
pub mod Realloc
use so_rtos.Base.{
  ℕ, zero, suc, Option, none, some, Bool, true, false, not, ◌&&◌, ◌||◌, ◌==◌, ltb, leb, is_null,
  ◌+◌, ◌-◌, ◌*◌, ◌/◌, ◌%◌, ◌^◌, if◌then◌else◌, update,
}

-- `FL_INDEX_MAX`, `SL_INDEX_COUNT_LOG2`, `ALIGN_SIZE`, `BLOCK_OVERHEAD` and `BLOCK_MIN_SIZE` on the
-- 32-bit target.
abbrev pub fl_index_max : ℕ
fl_index_max = 30

abbrev pub sl_index_count_log2 : ℕ
sl_index_count_log2 = 5

abbrev pub align_size : ℕ
align_size = 8

abbrev pub block_overhead : ℕ
block_overhead = 8

abbrev pub block_min_size : ℕ
block_min_size = 16

-- `ALIGN`, on a word.
abbrev pub align : ℕ → ℕ
align size = (size + (align_size - 1)) % 2 ^ 32 / align_size * align_size

-- `find_msb_index`: halvings until there is one bit left; a word has at most 31 of them.
unfoldable pub msb_from : ℕ → ℕ → ℕ
msb_from zero word = 0
msb_from (suc rounds) word =
    let rest = msb_from rounds (word / 2) in if ltb word 2 then 0 else suc rest

unfoldable pub find_msb_index : ℕ → ℕ
unfolding msb_from
find_msb_index word = msb_from 31 word

-- `find_lsb_index` of a bitmap without the bits below `i`; `none` for an empty one.
unfoldable pub lsb_from : ℕ → (ℕ → Bool) → ℕ → Option ℕ
lsb_from zero bits i = none
lsb_from (suc rounds) bits i =
    let rest = lsb_from rounds bits (i + 1) in if bits i then some i else rest

-- `mapping_indices_calc`: the two indices of the list for blocks of a size.
unfoldable pub second_index : ℕ → ℕ → ℕ
second_index size fl =
    if ltb fl sl_index_count_log2
    then size / 2
    else size / 2 ^ (fl - sl_index_count_log2) - 2 ^ sl_index_count_log2

unfoldable pub mapping_indices_calc : ℕ → ℕ × ℕ
unfolding second_index find_msb_index
mapping_indices_calc size =
    if ltb size block_min_size
    then (0, 0)
    else (find_msb_index size, second_index size (find_msb_index size))

-- `mapping_indices_search`: where to look for a block of at least the size.
abbrev pub capped : ℕ → ℕ
capped size = if leb (2 ^ fl_index_max) size then 2 ^ fl_index_max - 1 else size

unfoldable pub rounded_up : ℕ → ℕ
unfolding find_msb_index
rounded_up size =
    let fl = find_msb_index size in
    if leb sl_index_count_log2 fl then size + (2 ^ (fl - sl_index_count_log2) - 1) else size

unfoldable pub mapping_indices_search : ℕ → ℕ × ℕ
unfolding mapping_indices_calc rounded_up
mapping_indices_search size = mapping_indices_calc (rounded_up (capped size))
