-- ===== src/Sched/Heap/Swap.antt =====
-- What `_swap_tasks` does to the array, the runtimes and the indices.
use so_rtos.Base.{ℕ, ◌≡◌, refl, ◌==◌, if◌then◌else◌, ◌<◌, ◌^◌, arith, ltb}
use so_rtos.Sched.{Sched}
use so_rtos.Sched.Vruntime.{vruntime_lt, lead, InWindow, vruntime_lt-lead}
use so_rtos.Sched.Heap.{swap_tasks, vruntime_at}

-- The distance of a slot's virtual runtime from `base`.
unfoldable pub rank : ℕ → Sched → ℕ → ℕ
rank base s i = lead base (vruntime_at s i)

-- A `uint64_t` in the window that starts at `base`.
pub record Fits (base v : ℕ) : Type 0 where
  pub base_word : base < 2 ^ 64
  pub word : v < 2 ^ 64
  pub near : InWindow base v

-- Every queued virtual runtime is in the window.
abbrev pub IsWindowed : ℕ → Sched → Type 0
IsWindowed base s = (i : ℕ) → i < s.heap_size → Fits base (vruntime_at s i)

-- In a window `VRUNTIME_LT` compares ranks.
pub vruntime_lt-rank :
    (base : ℕ) (s : Sched) (i j : ℕ)
    → Fits base (vruntime_at s i)
    → Fits base (vruntime_at s j)
    → vruntime_lt (vruntime_at s i) (vruntime_at s j) ≡ ltb (rank base s i) (rank base s j)
unfolding rank
vruntime_lt-rank base s i j p q = vruntime_lt-lead base _ _ p.base_word p.word q.word p.near q.near

pub heap_size-swap : (s : Sched) (i j : ℕ) → (swap_tasks s i j).heap_size ≡ s.heap_size
unfolding swap_tasks
heap_size-swap s i j = refl

pub ready_heap-swap :
    (s : Sched) (i j k : ℕ)
    → (swap_tasks s i j).ready_heap k
      ≡ (if k == j then s.ready_heap i else if k == i then s.ready_heap j else s.ready_heap k)
unfolding swap_tasks
ready_heap-swap s i j k = refl

pub vruntime-swap :
    (s : Sched) (i j t : ℕ) → ((swap_tasks s i j).task_of t).vruntime ≡ (s.task_of t).vruntime
unfolding swap_tasks
vruntime-swap s i j t = ground arith

pub vruntime_at-swap :
    (s : Sched) (i j k : ℕ)
    → vruntime_at (swap_tasks s i j) k
      ≡ (if k == j then vruntime_at s i else if k == i then vruntime_at s j else vruntime_at s k)
vruntime_at-swap s i j k =
    ground (arith, vruntime-swap s i j ((swap_tasks s i j).ready_heap k), ready_heap-swap s i j k)

pub rank-swap :
    (base : ℕ) (s : Sched) (i j k : ℕ)
    → rank base (swap_tasks s i j) k
      ≡ (if k == j then rank base s i else if k == i then rank base s j else rank base s k)
unfolding rank
rank-swap base s i j k = rw (vruntime_at-swap s i j k) (ground arith)

pub swap-IsWindowed :
    (base : ℕ) (s : Sched) (i j : ℕ)
    → i < s.heap_size
    → j < s.heap_size
    → IsWindowed base s
    → IsWindowed base (swap_tasks s i j)
swap-IsWindowed base s i j p q w k r =
    ground (arith, w i p, w j q, w k (rw (← heap_size-swap s i j) r), vruntime_at-swap s i j k)
