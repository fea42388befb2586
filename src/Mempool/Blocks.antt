-- ===== src/Mempool/Blocks.antt =====
-- kernel/src/mempool.c: which blocks are free.
use so_rtos.Base.{
  ℕ, zero, suc, ◌≡◌, ◌<◌, ◌≤◌, refl, ◌==◌, arith, true, false, Option, some, List, [], ◌∷◌, ap,
  subst, ◌∙◌, leb, ltb, ◌+◌, ◌-◌, ◌*◌, ◌%◌, ◌^◌, ◌||◌, if_false, update,
}
use so_rtos.Chain.{contains, head?, IsDistinct, IsChain, IsChain-absent}
use so_rtos.WaitList.Order.{drop_first}
use so_rtos.Mempool.{
  Mempool, real_size, thread_blocks, mempool_create, alloc_at, mempool_alloc, free_block,
  mempool_free,
}
use native.Mathlib.Nat.{suc-mul}

-- The `n` blocks of the given size from `ptr`.
abbrev pub blocks : ℕ → ℕ → ℕ → List ℕ
blocks size zero ptr = []
blocks size (suc n) ptr = ptr ∷ blocks size n (ptr + size)

-- The blocks `xs` are free, no block twice, and each is one of the pool's.
pub record IsPool (pool : Mempool) (links : ℕ → Option ℕ) (xs : List ℕ) : Type 0 where
  pub chain : IsChain links pool.free_list xs
  pub distinct : IsDistinct xs
  pub inside :
      (p : ℕ)
      → contains xs p ≡ true
      → contains (blocks pool.item_size pool.count pool.buffer) p ≡ true

blocks-from : (size n ptr p : ℕ) → contains (blocks size n ptr) p ≡ true → ptr ≤ p
blocks-from size zero ptr p h = cc
blocks-from size (suc n) ptr p h = ground (arith, blocks-from size n (ptr + size) p)

blocks-below :
    (size n ptr p : ℕ) → 0 < size → contains (blocks size n ptr) p ≡ true → p < ptr + n * size
blocks-below size zero ptr p s h = cc
blocks-below size (suc n) ptr p s h =
    ground (arith, blocks-below size n (ptr + size) p s, suc-mul n size)

blocks-IsDistinct : (size n ptr : ℕ) → 0 < size → IsDistinct (blocks size n ptr)
blocks-IsDistinct size zero ptr s = tt
blocks-IsDistinct size (suc n) ptr s =
    (ground (arith, blocks-from size n (ptr + size) ptr), blocks-IsDistinct size n (ptr + size) s)

thread_blocks-below :
    (n size : ℕ) (links : ℕ → Option ℕ) (ptr p : ℕ)
    → p < ptr
    → thread_blocks n size links ptr p ≡ links p
unfolding thread_blocks
thread_blocks-below zero size links ptr p h = ground arith
thread_blocks-below (suc n) size links ptr p h =
    ground (arith, thread_blocks-below n size (update links ptr (some (ptr + size))) (ptr + size) p)

thread_blocks-IsChain :
    (n size : ℕ) (links : ℕ → Option ℕ) (ptr : ℕ)
    → 0 < size
    → IsChain (thread_blocks n size links ptr) (some ptr) (blocks size (suc n) ptr)
unfolding thread_blocks
thread_blocks-IsChain zero size links ptr s = (refl, ground arith)
thread_blocks-IsChain (suc n) size links ptr s =
    let links' = update links ptr (some (ptr + size)) in
    let here : thread_blocks n size links' (ptr + size) ptr ≡ some (ptr + size) =
      thread_blocks-below n size links' (ptr + size) ptr (omega arith) ∙ ground arith in
    (refl, rw here (thread_blocks-IsChain n size links' (ptr + size) s))

real_size-pos : (n : ℕ) → n + 4 ≤ 2 ^ 32 → 0 < real_size n
real_size-pos n h = ground arith

-- `mempool_create` of items of a positive size that can be rounded up, and a count that
-- is not 0, with memory from the allocator, makes a
-- pool in which all the blocks, and no others, are free.
pub mempool_create-IsPool :
    (item_size count owner buffer : ℕ) (links : ℕ → Option ℕ)
    → 0 < item_size
    → item_size + 4 ≤ 2 ^ 32
    → 0 < count
    → let (made, links') = mempool_create item_size count (some owner) (some buffer) links in
      (pool : Mempool) × (made ≡ some pool)
      × IsPool pool links' (blocks pool.item_size count buffer)
      × (item_size ≤ pool.item_size)
unfolding mempool_create
mempool_create-IsPool item_size count owner buffer links p w q =
    let test : (item_size == 0 || count == 0 || false) ≡ false = ground arith in
    let n : suc (count - 1) ≡ count = omega arith in
    rw (if_false _ _ test) (
      _,
      refl,
      record {
        chain =
            subst
              (λ k.
                IsChain (thread_blocks (count - 1) (real_size item_size) links buffer) (some buffer)
                  (blocks (real_size item_size) k buffer))
              n
              (thread_blocks-IsChain (count - 1) (real_size item_size) links buffer
                (real_size-pos item_size w));
        distinct = blocks-IsDistinct (real_size item_size) count buffer (real_size-pos item_size w);
        inside = λ k h. h;
      },
      ground arith,
    )

-- `mempool_alloc` on a well formed pool returns a free block of the pool, which is then no longer
-- free, or NULL when none is free; the other free blocks stay free.
pub mempool_alloc-IsPool :
    (pool : Mempool) (links : ℕ → Option ℕ) (xs : List ℕ)
    → IsPool pool links xs
    → let (p, pool') = mempool_alloc pool links in
      (p ≡ head? xs)
      × IsPool pool' links (drop_first xs)
      × ((k : ℕ) → p ≡ some k → contains (drop_first xs) k ≡ false)
unfolding mempool_alloc
mempool_alloc-IsPool pool links [] v = rw (ap (alloc_at pool links) v.chain) (refl, v, λ k h. refl)
mempool_alloc-IsPool pool links (x ∷ xs) v = rw (ap (alloc_at pool links) v.chain.0) (
  refl,
  record { chain = v.chain.1; distinct = v.distinct.1; inside = λ k h. v.inside k (ground arith) },
  λ k h. ground (arith, v.distinct.0, ap (contains xs) {x = x} {y = k}),
)

-- `mempool_free` of a block of a well formed pool inside the address space, that is not free,
-- makes exactly it free again.
pub mempool_free-IsPool :
    (pool : Mempool) (links : ℕ → Option ℕ) (xs : List ℕ) (p : ℕ)
    → IsPool pool links xs
    → 0 < pool.item_size
    → pool.buffer + pool.count * pool.item_size < 2 ^ 32
    → contains xs p ≡ false
    → contains (blocks pool.item_size pool.count pool.buffer) p ≡ true
    → let (pool', links') = mempool_free pool links (some p) in IsPool pool' links' (p ∷ xs)
unfolding mempool_free free_block
mempool_free-IsPool pool links xs p v s fits out own =
    let above = blocks-from pool.item_size pool.count pool.buffer p own in
    let below = blocks-below pool.item_size pool.count pool.buffer p s own in
    let test : (ltb p pool.buffer || leb ((pool.buffer + pool.count * pool.item_size) % 2 ^ 32) p)
        ≡ false =
      ground arith in
    rw (if_false _ _ test) (record {
      chain = (
        refl,
        subst (λ q. IsChain (update links p pool.free_list) q xs) (ground arith)
            (IsChain-absent links (update links p pool.free_list) pool.free_list p xs out
              (λ y n. ground arith) v.chain),
      );
      distinct = (out, v.distinct);
      inside = λ k h. ground (
        arith,
        v.inside k,
        own,
        ap (contains (blocks pool.item_size pool.count pool.buffer)) {x = p} {y = k},
      );
    })
