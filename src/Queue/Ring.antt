-- ===== src/Queue/Ring.antt =====
-- kernel/src/queue.c: the ring buffer as a queue of items, first in, first out.
use so_rtos.Base.{
  ℕ, zero, suc, ◌≡◌, ◌<◌, ◌≤◌, refl, ◌==◌, arith, List, [], ◌∷◌, ◌++◌, Bool-cases, ◌⊎◌, inl, inr,
  ap, sym, ◌∙◌, ltb, ◌+◌, ◌-◌, ◌*◌, ◌%◌, ◌^◌, if◌then◌else◌,
}
use so_rtos.Queue.{Queue, memcpy_to, memcpy_from, offset, store_item, drop_item}
use native.Mathlib.Nat.{mod_self, mul-le-mul_right, suc-mul, mod-eq_of_lt}

-- The `n` bytes from `at`.
abbrev pub bytes : (ℕ → ℕ) → ℕ → ℕ → List ℕ
bytes mem at zero = []
bytes mem at (suc n) = mem at ∷ bytes mem (suc at) n

-- The `n`th slot from `h` around the ring.
abbrev pub advance : ℕ → ℕ → ℕ → ℕ
advance capacity zero h = h
advance capacity (suc n) h = advance capacity n ((h + 1) % capacity)

-- `n` items from the slot `h`.
abbrev pub items_from : (ℕ → ℕ) → ℕ → ℕ → ℕ → ℕ → List (List ℕ)
items_from mem sz capacity zero h = []
items_from mem sz capacity (suc n) h =
    bytes mem ((h * sz) % 2 ^ 32) sz ∷ items_from mem sz capacity n ((h + 1) % capacity)

-- The items of the queue, oldest first.
abbrev pub contents : Queue → List (List ℕ)
contents q = items_from q.buffer q.item_size q.capacity q.count q.head

-- The indices are in range, and the buffer's size is a `size_t`.
pub record IsRing (q : Queue) : Type 0 where
  pub head : q.head < q.capacity
  pub tail : q.tail ≡ advance q.capacity q.count q.head
  pub count : q.count ≤ q.capacity
  pub size : q.capacity * q.item_size < 2 ^ 32

next-step : (c h : ℕ) → h < c → (h + 1) % c ≡ (if h + 1 == c then 0 else h + 1)
next-step c h p = elim (Bool-cases (h + 1 == c)) [
  | inl e ↦ let at : h + 1 ≡ c = ground arith in ground (arith, mod_self c, ap (λ k. k % c) at)
  | inr e ↦ ground (arith, mod-eq_of_lt {n = h + 1} {m = c})
]

next-inside : (c h : ℕ) → h < c → (h + 1) % c < c
next-inside c h p = ground (arith, next-step c h p)

advance-closed :
    (c n h : ℕ) → h < c → n ≤ c → advance c n h ≡ (if ltb (h + n) c then h + n else h + n - c)
advance-closed c zero h p q = ground arith
advance-closed c (suc n) h p q =
    ground
      (arith, advance-closed c n ((h + 1) % c) (next-inside c h p) (omega arith), next-step c h p)

advance-inside : (c n h : ℕ) → h < c → n ≤ c → advance c n h < c
advance-inside c n h p q = ground (arith, advance-closed c n h p q)

slot_fits : (i c sz : ℕ) → i < c → i * sz + sz ≤ c * sz
slot_fits i c sz p = omega (arith, mul-le-mul_right {m = suc i} {n = c} sz p, suc-mul i sz)

slots_apart : (i j sz : ℕ) → i < j → i * sz + sz ≤ j * sz
slots_apart i j sz p = slot_fits i j sz p

bytes-agree :
    (f g : ℕ → ℕ) (at n : ℕ)
    → ((j : ℕ) → at ≤ j → j < at + n → g j ≡ f j)
    → bytes g at n ≡ bytes f at n
bytes-agree f g at zero h = refl
bytes-agree f g at (suc n) h =
    ground (arith, h at, bytes-agree f g (suc at) n (λ j p q. h j (omega arith) (omega arith)))

bytes-shift :
    (f g : ℕ → ℕ) (at from n : ℕ)
    → ((j : ℕ) → j < n → g (at + j) ≡ f (from + j))
    → bytes g at n ≡ bytes f from n
bytes-shift f g at from zero h = refl
bytes-shift f g at from (suc n) h =
    let here : g at ≡ f from = ground (arith, h 0) in
    let rest =
      bytes-shift f g (suc at) (suc from) n (λ j p. ground (arith, h (suc j) (omega arith))) in
    ap (λ x. x ∷ bytes g (suc at) n) here ∙ ap (λ l. f from ∷ l) rest

-- `utils_memcpy` copies.
bytes-memcpy_to :
    (dest : ℕ → ℕ) (at : ℕ) (src : ℕ → ℕ) (n : ℕ)
    → bytes (memcpy_to dest at src n) at n ≡ bytes src 0 n
bytes-memcpy_to dest at src n =
    bytes-shift src (memcpy_to dest at src n) at 0 n
      (λ j p. ground (arith, ap src {x = at + j - at} {y = j}))

bytes-memcpy_to_apart :
    (dest : ℕ → ℕ) (at : ℕ) (src : ℕ → ℕ) (n from m : ℕ)
    → (from + m ≤ at) ⊎ (at + n ≤ from)
    → bytes (memcpy_to dest at src n) from m ≡ bytes dest from m
bytes-memcpy_to_apart dest at src n from m (inl h) =
    bytes-agree dest (memcpy_to dest at src n) from m (λ j p q. ground arith)
bytes-memcpy_to_apart dest at src n from m (inr h) =
    bytes-agree dest (memcpy_to dest at src n) from m (λ j p q. ground arith)

items_from-agree :
    (f g : ℕ → ℕ) (sz c n h : ℕ)
    → ((k : ℕ) → k < n → let at = (advance c k h * sz) % 2 ^ 32 in bytes g at sz ≡ bytes f at sz)
    → items_from g sz c n h ≡ items_from f sz c n h
items_from-agree f g sz c zero h same = refl
items_from-agree f g sz c (suc n) h same =
    let rest = items_from-agree f g sz c n ((h + 1) % c) (λ k p. same (suc k) (omega arith)) in
    ap (λ x. x ∷ items_from g sz c n ((h + 1) % c)) (same 0 (omega arith))
    ∙ ap (λ l. bytes f ((h * sz) % 2 ^ 32) sz ∷ l) rest

items_from-snoc :
    (f : ℕ → ℕ) (sz c n h : ℕ)
    → items_from f sz c (suc n) h
      ≡ items_from f sz c n h ++ bytes f ((advance c n h * sz) % 2 ^ 32) sz ∷ []
items_from-snoc f sz c zero h = refl
items_from-snoc f sz c (suc n) h =
    ap (λ l. bytes f ((h * sz) % 2 ^ 32) sz ∷ l) (items_from-snoc f sz c n ((h + 1) % c))

advance-suc : (c n h : ℕ) → advance c (suc n) h ≡ (advance c n h + 1) % c
advance-suc c zero h = refl
advance-suc c (suc n) h = advance-suc c n ((h + 1) % c)

slot-offset : (i c sz : ℕ) → i < c → c * sz < 2 ^ 32 → (i * sz) % 2 ^ 32 ≡ i * sz
slot-offset i c sz p fits =
    mod-eq_of_lt {n = i * sz} {m = 2 ^ 32} (omega (arith, slot_fits i c sz p))

-- The slot behind the items is none of theirs.
slot-apart :
    (c sz n k h : ℕ)
    → h < c
    → n < c
    → k < n
    → let i = advance c k h in
      let t = advance c n h in (i * sz + sz ≤ t * sz) ⊎ (t * sz + sz ≤ i * sz)
slot-apart c sz n k h p q r =
    let i = advance c k h in
    let t = advance c n h in
    elim (Bool-cases (ltb i t)) [
      | inl e ↦ inl (slots_apart i t sz (ground arith))
      | inr e ↦ inr (
          slots_apart t i sz (
            ground
              (arith, advance-closed c k h p (omega arith), advance-closed c n h p (omega arith))))
    ]

-- On a well formed ring with space, storing an item adds it behind all others.
pub store_item-contents :
    (q : Queue) (item : ℕ → ℕ)
    → IsRing q
    → q.count < q.capacity
    → (contents (store_item q item) ≡ contents q ++ bytes item 0 q.item_size ∷ [])
      × IsRing (store_item q item)
store_item-contents q item v space =
    let c = q.capacity in
    let sz = q.item_size in
    let t = advance c q.count q.head in
    let inside : t < c = advance-inside c q.count q.head v.head v.count in
    let mem = memcpy_to q.buffer (offset q q.tail) item sz in
    let at : offset q q.tail ≡ t * sz = ap (offset q) v.tail ∙ slot-offset t c sz inside v.size in
    let longer : q.count + 1 ≡ suc q.count = omega arith in
    let old : items_from mem sz c q.count q.head ≡ contents q =
      items_from-agree q.buffer mem sz c q.count q.head (λ k p.
        let i = advance c k q.head in
        let here =
          slot-offset i c sz (advance-inside c k q.head v.head (omega (arith, v.count))) v.size in
        rw (here, at)
          (bytes-memcpy_to_apart q.buffer (t * sz) item sz (i * sz) sz
            (slot-apart c sz q.count k q.head v.head space p))) in
    let new : bytes mem ((t * sz) % 2 ^ 32) sz ≡ bytes item 0 sz =
      rw (slot-offset t c sz inside v.size, at) (bytes-memcpy_to q.buffer (t * sz) item sz) in
    (
      ap (λ n. items_from mem sz c n q.head) longer
          ∙ (items_from-snoc mem sz c q.count q.head
              ∙ (ap (λ l. l ++ bytes mem ((t * sz) % 2 ^ 32) sz ∷ []) old
                  ∙ ap (λ b. contents q ++ b ∷ []) new)),
      record {
        head = v.head;
        tail =
            ap (λ k. (k + 1) % c) v.tail
            ∙ (sym (advance-suc c q.count q.head) ∙ ap (λ n. advance c n q.head) (sym longer));
        count = omega arith;
        size = v.size;
      },
    )

-- On a well formed ring with an item, what is copied out is the oldest item, and the others stay.
pub drop_item-contents :
    (q : Queue) (out : ℕ → ℕ)
    → IsRing q
    → 0 < q.count
    → (contents q
        ≡ bytes (memcpy_from out q.buffer (offset q q.head) q.item_size) 0 q.item_size
          ∷ contents (drop_item q))
      × IsRing (drop_item q)
drop_item-contents q out v some_item =
    let c = q.capacity in
    let sz = q.item_size in
    let shorter : q.count ≡ suc (q.count - 1) = omega arith in
    let copied : bytes (memcpy_from out q.buffer (offset q q.head) sz) 0 sz
        ≡ bytes q.buffer (offset q q.head) sz =
      bytes-shift q.buffer _ 0 (offset q q.head) sz (λ j p. ground arith) in
    (
      ap (λ n. items_from q.buffer sz c n q.head) shorter
          ∙ ap (λ b. b ∷ contents (drop_item q)) (sym copied),
      record {
        head = next-inside c q.head v.head;
        tail = v.tail ∙ ap (λ n. advance c n q.head) shorter;
        count = omega (arith, v.count);
        size = v.size;
      },
    )
