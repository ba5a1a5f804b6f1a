-- ===== src/Microbench/Qsort.antt =====
-- Quick sort, ysyx-workbench/am-kernels/benchmarks/microbench/src/qsort/qsort.c. An int is the number
-- of its 32 bits, and an array of them a function from the index.
pub mod Partition
pub mod Sorts
pub mod Prepared
use for_ysyx_self_store_by_h.Base.{
  ℕ, zero, suc, ◌+◌, ◌-◌, ◌*◌, ◌/◌, ◌%◌, ◌^◌, Bool, Option, none, some, if◌then◌else◌, ltb, ◌==◌,
  bit_or, update,
}
use for_ysyx_self_store_by_h.Microbench.{Memory, bench_alloc, bench_srand, bench_rand, checksum}
use for_ysyx_self_store_by_h.Microbench.Permutes.{swap}

-- The order of the integers that the patterns stand for.
unfoldable pub rank : ℕ → ℕ
rank x = (x + 2 ^ 31) % 2 ^ 32

abbrev pub int_lt : ℕ → ℕ → Bool
int_lt x y = ltb (rank x) (rank y)

-- The array, and `pivot`.
pub record Split : Type 0 where
  pub a : ℕ → ℕ
  pub pivot : ℕ

-- The body of the loop at the place `j`, where the first element is `p`.
unfoldable pub visit : ℕ → ℕ → Split → Split
visit p j s =
    if int_lt (s.a j) p then record { a = swap s.a (s.pivot + 1) j; pivot = s.pivot + 1 } else s

-- The loop, from `j` on for so many places.
unfoldable pub partition : ℕ → ℕ → ℕ → Split → Split
partition p zero j s = s
partition p (suc n) j s = partition p n (j + 1) (visit p j s)

-- The loop on [l + 1 .. r), and the swap behind it.
unfoldable pub split : (ℕ → ℕ) → ℕ → ℕ → Split
split a l r =
    let s = partition (a l) (r - (l + 1)) (l + 1) (record { a = a; pivot = l }) in
    record { a = swap s.a s.pivot l; pivot = s.pivot }

-- With fuel: a call on n elements makes calls on fewer.
unfoldable pub myqsort : ℕ → (ℕ → ℕ) → ℕ → ℕ → ℕ → ℕ
myqsort zero a l r = a
myqsort (suc fuel) a l r =
    let s = split a l r in
    let sorted = myqsort fuel (myqsort fuel s.a l s.pivot) (s.pivot + 1) r in
    if ltb l r then sorted else a

-- The loop of bench_qsort_prepare, from `i` on for so many elements.
unfoldable pub fill : ℕ → ℕ → ℕ → (ℕ → ℕ) → ℕ → ℕ
fill zero i seed a = a
fill (suc n) i seed a =
    let (x, seed1) = bench_rand seed in
    let (y, seed2) = bench_rand seed1 in fill n (i + 1) seed2 (update a i (bit_or (x * 2 ^ 16) y))

-- The bytes of an array of ints.
abbrev pub bytes_of : (ℕ → ℕ) → ℕ → ℕ
bytes_of a i = a (i / 4) / 2 ^ (8 * (i % 4)) % 2 ^ 8

-- The array `data`, cleared by bench_alloc and filled; `size` is N.
unfoldable pub bench_qsort_prepare : ℕ → Memory → Option ((ℕ → ℕ) × Memory)
bench_qsort_prepare size m = elim (bench_alloc (size * 4) m) [
  | none ↦ none
  | some (data_at, m') ↦ some (fill size 0 (bench_srand 1) (λ i. 0), m')
]

unfoldable pub bench_qsort_run : ℕ → (ℕ → ℕ) → ℕ → ℕ
bench_qsort_run size a = myqsort size a 0 size

unfoldable pub bench_qsort_validate : ℕ → ℕ → (ℕ → ℕ) → Bool
bench_qsort_validate expected size a = checksum (bytes_of a) 0 (size * 4) == expected
