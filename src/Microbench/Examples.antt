-- ===== src/Microbench/Examples.antt =====
-- The theorems on the benchmarks at small inputs, and tests.
use for_ysyx_self_store_by_h.Base.{
  ℕ, zero, suc, ◌+◌, ◌^◌, ◌<◌, ◌≤◌, ◌≡◌, refl, arith, some, List, [], ◌∷◌, get_or, passes_below,
  if◌then◌else◌,
}
use for_ysyx_self_store_by_h.Microbench.{Memory, bench_srand, bench_rand, score}
use for_ysyx_self_store_by_h.Microbench.Heap.{IsHeap}
use for_ysyx_self_store_by_h.Microbench.Permutes.{swap}
use for_ysyx_self_store_by_h.Microbench.Qsort.{
  rank, visit, partition, split, myqsort, bench_qsort_prepare, bench_qsort_run,
}
use for_ysyx_self_store_by_h.Microbench.Qsort.Sorts.{Sorts, myqsort-Sorts}
use for_ysyx_self_store_by_h.Microbench.Qsort.Prepared.{IsSorted, bench_qsort-IsSorted}
use for_ysyx_self_store_by_h.Microbench.Sieve.{get, bench_sieve_prepare, bench_sieve_run}
use for_ysyx_self_store_by_h.Microbench.Sieve.Counts.{is_prime, primes_below, bench_sieve-primes}

-- A heap of 4 KB with the limit of the small settings.
abbrev memory : Memory
memory = record {
  heap_start = 0x80010004;
  heap_end = 0x80011000;
  mlim = 1024;
  hbrk = 0x80010008;
  bytes = λ i. 7;
}

memory-IsHeap : IsHeap memory
memory-IsHeap = record { above = omega arith; aligned = omega arith }

-- The integers 3, -1, 2, -5 and 9.
abbrev numbers : ℕ → ℕ
numbers i = get_or (3 ∷ 0xffffffff ∷ 2 ∷ 0xfffffffb ∷ 9 ∷ []) i 0

-- The first places of an array.
abbrev first : ℕ → (ℕ → ℕ) → List ℕ
first zero a = []
first (suc n) a = a 0 ∷ first n (λ i. a (i + 1))

numbers_sorted : first 5 (myqsort 5 numbers 0 5) ≡ 0xfffffffb ∷ 0xffffffff ∷ 2 ∷ 3 ∷ 9 ∷ []
unfolding myqsort split partition visit rank swap
numbers_sorted = refl

myqsort-Sorts_example : Sorts 1 4 numbers (myqsort 9 numbers 1 4)
myqsort-Sorts_example = myqsort-Sorts 9 numbers 1 4 (omega arith)

bench_qsort-IsSorted_example :
    (a : ℕ → ℕ) × (m' : Memory) × (bench_qsort_prepare 100 memory ≡ some (a, m'))
    × ((i : ℕ) → i < 100 → a i < 2 ^ 31)
    × IsSorted 100 a (bench_qsort_run 100 a)
bench_qsort-IsSorted_example =
    bench_qsort-IsSorted 100 memory memory-IsHeap (omega arith) (omega arith)

bench_sieve-primes_example :
    (primes : ℕ → ℕ) × (after : ℕ → ℕ) × (m' : Memory) × (bench_sieve_prepare 100 memory
      ≡ some (primes, m'))
    × (bench_sieve_run 100 primes 0 ≡ (after, primes_below 101))
    × ((n : ℕ) → 2 ≤ n → n ≤ 100 → get after n ≡ (if is_prime n then 1 else 0))
bench_sieve-primes_example =
    bench_sieve-primes 100 memory 0 memory-IsHeap (omega arith) (omega arith)

-- SIEVE_S of include/benchmark.h: the checksum of the small setting.
sieve_small : primes_below 101 ≡ 0x19
unfolding primes_below is_prime passes_below
sieve_small = refl

-- The first random numbers behind bench_srand (1), those of the C library of Windows.
random_numbers : (bench_rand (bench_srand 1)).0 ≡ 41
unfolding bench_rand bench_srand
random_numbers = refl

scores : (score 4404 0 ≡ 0) × (score 4404 8808 ≡ 50000)
unfolding score
scores = (refl, refl)
