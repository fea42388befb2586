-- ===== src/Sched/Heap.antt =====
-- kernel/src/scheduler.c: the ready queue, a binary min-heap of task pointers ordered by virtual
-- runtime. Each task in it knows its index.
pub mod Swap
pub mod Insert
pub mod Remove
pub mod Valid
pub mod Index
pub mod Order
use so_rtos.Base.{
  ℕ, zero, suc, Option, none, some, true, false, ◌&&◌, ◌+◌, ◌-◌, ◌*◌, ◌/◌, ltb, leb, ◌==◌,
  if◌then◌else◌, update,
}
use so_rtos.Task.{Task, max_tasks}
use so_rtos.Sched.{Sched, modify}
use so_rtos.Sched.Vruntime.{vruntime_lt}

abbrev pub parent : ℕ → ℕ
parent i = (i - 1) / 2

abbrev pub set_heap_index : Option ℕ → Task → Task
set_heap_index i t = record t { heap_index = i }

-- `ctx->ready_heap[i]->vruntime`.
abbrev pub vruntime_at : Sched → ℕ → ℕ
vruntime_at s i = (s.task_of (s.ready_heap i)).vruntime

-- `_swap_tasks`.
unfoldable pub swap_tasks : Sched → ℕ → ℕ → Sched
swap_tasks s i j =
    let temp = s.ready_heap i in
    let h = update (update s.ready_heap i (s.ready_heap j)) j temp in
    modify (modify (record s { ready_heap = h }) (h i) (set_heap_index (some i))) (h j)
      (set_heap_index (some j))

-- `_heap_up`; the fuel bounds the rounds, and the index itself is enough.
unfoldable pub heap_up_loop : ℕ → Sched → ℕ → Sched
heap_up_loop zero s index = s
heap_up_loop (suc fuel) s index =
    elim (ltb 0 index && vruntime_lt (vruntime_at s index) (vruntime_at s (parent index))) [
      | true ↦ heap_up_loop fuel (swap_tasks s index (parent index)) (parent index)
      | false ↦ s
    ]

unfoldable pub heap_up : Sched → ℕ → Sched
heap_up s index = heap_up_loop index s index

-- The child of `index`, or `index` itself, that `_heap_down` picks.
unfoldable pub smallest_of : Sched → ℕ → ℕ
smallest_of s index =
    let left = 2 * index + 1 in
    let right = 2 * index + 2 in
    let smallest =
      if ltb left s.heap_size && vruntime_lt (vruntime_at s left) (vruntime_at s index)
      then left
      else index in
    if ltb right s.heap_size && vruntime_lt (vruntime_at s right) (vruntime_at s smallest)
    then right
    else smallest

-- `_heap_down`; the index grows, so that `heap_size` rounds are enough.
unfoldable pub heap_down_loop : ℕ → Sched → ℕ → Sched
heap_down_loop zero s index = s
heap_down_loop (suc fuel) s index =
    let smallest = smallest_of s index in
    elim (smallest == index) [
      | true ↦ s
      | false ↦ heap_down_loop fuel (swap_tasks s index smallest) smallest
    ]

unfoldable pub heap_down : Sched → ℕ → Sched
heap_down s index = heap_down_loop s.heap_size s index

-- `_heap_insert`.
unfoldable pub heap_insert : Sched → ℕ → Sched
heap_insert s t =
    if leb max_tasks s.heap_size
    then s
    else heap_up
        (record (modify s t (set_heap_index (some s.heap_size))) {
          ready_heap = update s.ready_heap s.heap_size t;
          heap_size = s.heap_size + 1;
        })
        s.heap_size

-- The last entry moves to `index`, and the heap has one entry less.
abbrev pub move_last : Sched → ℕ → Sched
move_last s index =
    let last = s.ready_heap s.heap_size in
    modify (record s { ready_heap = update s.ready_heap index last }) last
      (set_heap_index (some index))

-- `_heap_pop_min`.
unfoldable pub heap_pop_min : Sched → Option ℕ × Sched
heap_pop_min s =
    if s.heap_size == 0
    then (none, s)
    else let min = s.ready_heap 0 in
      let s' = record (modify s min (set_heap_index none)) { heap_size = s.heap_size - 1 } in
      (some min, if ltb 0 s'.heap_size then heap_down (move_last s' 0) 0 else s')

-- `_heap_remove`, at the index that the task holds.
unfoldable pub heap_remove_at : Sched → ℕ → ℕ → Sched
heap_remove_at s t index =
    if leb s.heap_size index
    then s
    else let s' = record (modify s t (set_heap_index none)) { heap_size = s.heap_size - 1 } in
      if ltb index s'.heap_size then heap_down (heap_up (move_last s' index) index) index else s'

unfoldable pub heap_remove : Sched → ℕ → Sched
unfolding heap_remove_at
heap_remove s t = elim (s.task_of t).heap_index [ none ↦ s | some index ↦ heap_remove_at s t index ]

-- `_get_min_vruntime`.
unfoldable pub get_min_vruntime : Sched → ℕ
get_min_vruntime s =
    if ltb 0 s.heap_size
    then vruntime_at s 0
    else elim s.curr [ none ↦ 0 | some c ↦ (s.task_of c).vruntime ]
