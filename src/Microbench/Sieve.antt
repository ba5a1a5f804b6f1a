-- ===== src/Microbench/Sieve.antt =====
-- The sieve of Eratosthenes, ysyx-workbench/am-kernels/benchmarks/microbench/src/sieve/sieve.c, on an
-- array of 32-bit words, a bit for each number. The products and sums of the loops stay below 2 ^ 31
-- for the sizes of the benchmark.
pub mod BitArray
pub mod Crosses
pub mod Counts
use for_ysyx_self_store_by_h.Base.{
  ℕ, zero, suc, ◌+◌, ◌-◌, ◌*◌, ◌/◌, ◌%◌, ◌^◌, ◌&&◌, Bool, true, false, Option, none, some,
  if◌then◌else◌, leb, ltb, ◌==◌, bits, bit_and, update,
}
use for_ysyx_self_store_by_h.Microbench.{Memory, bench_alloc}

-- get (n)
unfoldable pub get : (ℕ → ℕ) → ℕ → ℕ
get primes n = bits (primes (n / 32)) (n % 32) 1

-- ~(1ul << k) in the lower 32 bits; above them a word has no bits.
abbrev pub mask : ℕ → ℕ
mask k = 2 ^ 32 - 1 - 2 ^ k

-- clear (n)
unfoldable pub clear : (ℕ → ℕ) → ℕ → ℕ → ℕ
clear primes n = update primes (n / 32) (bit_and (primes (n / 32)) (mask (n % 32)))

-- The array, cleared by bench_alloc, with the words up to N / 32 set.
unfoldable pub bench_sieve_prepare : ℕ → Memory → Option ((ℕ → ℕ) × Memory)
bench_sieve_prepare size m = elim (bench_alloc (size / 8 + 128) m) [
  | none ↦ none
  | some (primes_at, m') ↦ some ((λ i. if leb i (size / 32) then 2 ^ 32 - 1 else 0), m')
]

-- The first loop, from `i` on for so many numbers: whether it does not return.
unfoldable pub all_set : ℕ → ℕ → (ℕ → ℕ) → Bool
all_set zero i primes = true
all_set (suc n) i primes =
    let rest = all_set n (i + 1) primes in if get primes i == 0 then false else rest

module _ (size : ℕ) where
  -- The loop over the multiples of `i`, from `j` on, with fuel.
  unfoldable pub cross_out : ℕ → ℕ → ℕ → (ℕ → ℕ) → ℕ → ℕ
  cross_out zero i j primes = primes
  cross_out (suc fuel) i j primes =
      let rest = cross_out fuel i (j + i) (clear primes j) in if leb j size then rest else primes

  -- The body of the loop over `i`.
  abbrev pub visit : ℕ → (ℕ → ℕ) → ℕ → ℕ
  visit i primes = if get primes i == 0 then primes else cross_out size i (i + i) primes

  -- The loop over `i`, with fuel.
  unfoldable pub sieve : ℕ → ℕ → (ℕ → ℕ) → ℕ → ℕ
  sieve zero i primes = primes
  sieve (suc fuel) i primes =
      let rest = sieve fuel (i + 1) (visit i primes) in if leb (i * i) size then rest else primes

-- The last loop, from `i` on for so many numbers.
unfoldable pub count : ℕ → ℕ → (ℕ → ℕ) → ℕ → ℕ
count zero i primes ans = ans
count (suc n) i primes ans = count n (i + 1) primes (if get primes i == 0 then ans else ans + 1)

-- The array and `ans`.
unfoldable pub bench_sieve_run : ℕ → (ℕ → ℕ) → ℕ → (ℕ → ℕ) × ℕ
bench_sieve_run size primes ans =
    let crossed = sieve size size 2 primes in
    if all_set size 1 primes then (crossed, count (size - 1) 2 crossed 0) else (primes, ans)

unfoldable pub bench_sieve_validate : ℕ → ℕ → Bool
bench_sieve_validate expected ans = ans == expected
