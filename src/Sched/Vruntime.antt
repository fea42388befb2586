-- ===== src/Sched/Vruntime.antt =====
-- kernel/src/scheduler.c: `VRUNTIME_LT`, the comparison of virtual runtimes that survives
-- overflow.
use so_rtos.Base.{ℕ, ◌≡◌, Bool, true, ◌^◌, ◌<◌, ltb, leb, sub64, add64, arith}

-- `VRUNTIME_LT(a, b)`: is `(int64_t)(a - b)` negative?
unfoldable pub vruntime_lt : ℕ → ℕ → Bool
vruntime_lt a b = leb (2 ^ 63) (sub64 a b)

-- How far a virtual runtime is past `base`, on the circle of `uint64_t` values.
abbrev pub lead : ℕ → ℕ → ℕ
lead base v = sub64 v base

-- A virtual runtime less than half the circle past `base`.
abbrev pub InWindow : ℕ → ℕ → Type 0
InWindow base v = lead base v < 2 ^ 63

-- For 64-bit values within half the circle past a base, `VRUNTIME_LT` is the order of the distances
-- from that base.
pub vruntime_lt-lead :
    (base a b : ℕ)
    → base < 2 ^ 64
    → a < 2 ^ 64
    → b < 2 ^ 64
    → InWindow base a
    → InWindow base b
    → vruntime_lt a b ≡ ltb (lead base a) (lead base b)
unfolding vruntime_lt
vruntime_lt-lead base a b h ha hb wa wb = ground arith

-- A virtual runtime that the tick charge moves on, by less than half the circle, is behind none.
pub vruntime_lt-add64 :
    (v d : ℕ) → v < 2 ^ 64 → 0 < d → d < 2 ^ 63 → vruntime_lt v (add64 v d) ≡ true
unfolding vruntime_lt
vruntime_lt-add64 v d h p q = ground arith
