-- ===== src/Microbench/Heap.antt =====
-- What bench_alloc of ysyx-workbench/am-kernels/benchmarks/microbench/src/bench.c promises.
use for_ysyx_self_store_by_h.Base.{
  ℕ, ◌+◌, ◌-◌, ◌%◌, ◌≤◌, ◌<◌, ◌≡◌, ◌⊎◌, refl, arith, some, true, ltb, leb,
}
use for_ysyx_self_store_by_h.Microbench.{Memory, round_up, bench_reset, bench_alloc, clear}

-- The blocks lie between heap.start and hbrk, which is aligned.
pub record IsHeap (m : Memory) : Type 0 where
  pub above : m.heap_start ≤ m.hbrk
  pub aligned : m.hbrk % 8 ≡ 0

pub bench_reset-IsHeap : (m : Memory) → IsHeap (bench_reset m)
unfolding bench_reset
bench_reset-IsHeap m = record { above = omega arith; aligned = omega arith }

-- A new block: aligned, at the end of the old ones, cleared, within the heap and the limit of the
-- benchmark; the rest of the memory is as before.
pub record IsBlock (size : ℕ) (m : Memory) (p : ℕ) (m' : Memory) : Type 0 where
  pub at_end : p ≡ m.hbrk
  pub block_aligned : p % 8 ≡ 0
  pub room : p + size ≤ m'.hbrk
  pub in_heap : m'.hbrk < m.heap_end
  pub in_limit : m'.hbrk ≤ m.heap_start + m.mlim
  pub cleared : (i : ℕ) → p ≤ i → i < p + size → m'.bytes i ≡ 0
  pub kept : (i : ℕ) → (i < p) ⊎ (m'.hbrk ≤ i) → m'.bytes i ≡ m.bytes i
  pub heap : IsHeap m'

abbrev pub allocated : ℕ → Memory → Memory
allocated size m =
    let hbrk = m.hbrk + round_up size in record m { hbrk = hbrk; bytes = clear m.hbrk hbrk m.bytes }

pub bench_alloc-allocated :
    (size : ℕ) (m : Memory)
    → IsHeap m
    → m.hbrk + round_up size < m.heap_end
    → m.hbrk + round_up size ≤ m.heap_start + m.mlim
    → bench_alloc size m ≡ some (m.hbrk, allocated size m)
unfolding bench_alloc
bench_alloc-allocated size m h in_heap in_limit =
    let above : leb m.heap_start (m.hbrk + round_up size) ≡ true = ground (arith, h.above) in
    let inside : ltb (m.hbrk + round_up size) m.heap_end ≡ true = ground arith in
    let within : leb (m.hbrk + round_up size - m.heap_start) m.mlim ≡ true = ground arith in
    rw above (rw inside (rw within refl))
