-- ===== src/Tests/Memory.antt =====
-- The allocator on a small heap.
use so_rtos.Base.{ℕ, ◌≡◌, refl, arith, none, some, true}
use so_rtos.Alloc.{mapping_indices_calc, mapping_indices_search}
use so_rtos.Alloc.Blocks.{Block, Heap, allocator_malloc, block_insert}
use so_rtos.Alloc.Search.{Filed}
use so_rtos.Alloc.Mapping.{Precedes, mapping_indices_search-Precedes}
use so_rtos.Alloc.Fits.{Answers, allocator_malloc-Answers}
use so_rtos.Alloc.Insert.{block_insert-Filed}
use so_rtos.Alloc.Init.{fresh, fresh-IsOneBlock}
use so_rtos.Alloc.Found.{IsMapped}
use so_rtos.Alloc.Serves.{IsOneBlock-IsMapped, allocator_malloc-serves}

-- Memory with one block of 200 bytes at 8, before the block is filed.
abbrev blank : Block
blank = record {
  size = 200;
  is_free = true;
  prev_phys_block = none;
  next_free = none;
  prev_free = none;
}

abbrev unfiled : Heap
unfiled = fresh (λ a. blank) 8 200

abbrev heap : Heap
heap = block_insert unfiled 8

heap-Filed : Filed heap
heap-Filed =
    block_insert-Filed unfiled 8
      record {
        in_list = λ i j b none_some. ground (arith, none_some);
        at_least = λ i j b none_some. ground (arith, none_some);
      }
      (omega arith)

allocator_malloc-Answers_example : Answers heap 32 (allocator_malloc heap 24)
allocator_malloc-Answers_example = allocator_malloc-Answers heap 24 heap-Filed (omega arith)

mapping_indices_search-Precedes_example :
    Precedes (mapping_indices_calc 136) (mapping_indices_search 138)
mapping_indices_search-Precedes_example =
    mapping_indices_search-Precedes 136 138 (omega arith) (omega arith) (omega arith) (omega arith)

heap-IsMapped : IsMapped heap
unfolding block_insert
heap-IsMapped =
    IsOneBlock-IsMapped heap (fresh-IsOneBlock (λ a. blank) 8 200) (omega arith) (omega arith)

heap-head : heap.blocks 7 18 ≡ some 8
unfolding block_insert mapping_indices_calc
heap-head = refl

-- A request of 100 bytes wants a block of 112.
allocator_malloc-serves_example : (p : ℕ) × ((allocator_malloc heap 100).0 ≡ some p)
unfolding block_insert
allocator_malloc-serves_example =
    allocator_malloc-serves heap 100 7 18 8 heap-IsMapped heap-Filed (omega arith) (omega arith)
      heap-head (omega arith) (omega arith)
