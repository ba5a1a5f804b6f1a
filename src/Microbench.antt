-- ===== src/Microbench.antt =====
-- The benchmarks of ysyx-workbench/am-kernels/benchmarks/microbench: what src/bench.c gives to all of
-- them, memory, random numbers and checksums; and the benchmarks in the modules below. An address is
-- a number, and no sum of an address and a size wraps around. `none` is a failed assert.
pub mod Permutes
pub mod Heap
pub mod Qsort
pub mod Sieve
mod Examples
use for_ysyx_self_store_by_h.Base.{
  ℕ, zero, suc, ◌+◌, ◌-◌, ◌*◌, ◌/◌, ◌%◌, ◌^◌, ◌&&◌, Option, none, some, if◌then◌else◌, ltb, leb,
  ◌==◌, bit_xor, shl32, sar32, u32,
}

-- heap.start, heap.end, setting->mlim, hbrk, and the bytes at the addresses.
pub record Memory : Type 0 where
  pub heap_start : ℕ
  pub heap_end : ℕ
  pub mlim : ℕ
  pub hbrk : ℕ
  pub bytes : ℕ → ℕ

-- ROUNDUP (a, 8)
abbrev pub round_up : ℕ → ℕ
round_up a = (a + 7) / 8 * 8

unfoldable pub bench_reset : Memory → Memory
bench_reset m = record m { hbrk = round_up m.heap_start }

-- The loop that clears the words of eight bytes from one address to another.
abbrev pub clear : ℕ → ℕ → (ℕ → ℕ) → ℕ → ℕ
clear start end bytes i = if leb start i && ltb i end then 0 else bytes i

-- The address of the block, and the memory.
unfoldable pub bench_alloc : ℕ → Memory → Option (ℕ × Memory)
bench_alloc size m =
    let old = m.hbrk in
    let hbrk = old + round_up size in
    if leb m.heap_start hbrk && ltb hbrk m.heap_end
    then if leb (hbrk - m.heap_start) m.mlim
      then some (old, record m { hbrk = hbrk; bytes = clear old hbrk m.bytes })
      else none
    else none

-- Whether bench_check lets the benchmark run.
abbrev pub bench_check : Memory → ℕ → Option (Unit {0})
bench_check m mlim = if ltb (m.heap_end - m.heap_start) mlim then none else some tt

-- The new value of the static variable seed.
unfoldable pub bench_srand : ℕ → ℕ
bench_srand seed = seed % 2 ^ 15

-- The number, and the new value of seed.
unfoldable pub bench_rand : ℕ → ℕ × ℕ
bench_rand seed = let seed' = u32 (seed * 214013 + 2531011) in (seed' / 2 ^ 16 % 2 ^ 15, seed')

-- A byte more in the hash h1.
abbrev pub hash_byte : ℕ → ℕ → ℕ
hash_byte h1 byte = u32 (bit_xor h1 byte * 16777619)

-- The loop over the words of four bytes, for so many of them.
unfoldable pub hash_words : (ℕ → ℕ) → ℕ → ℕ → ℕ → ℕ
hash_words bytes zero p h1 = h1
hash_words bytes (suc n) p h1 = hash_words bytes n (p + 4) (
    hash_byte (hash_byte (hash_byte (hash_byte h1 (bytes p)) (bytes (p + 1))) (bytes (p + 2)))
      (bytes (p + 3)))

-- Behind the loop; `hash` is an int32_t, whose shift to the right repeats the sign bit.
abbrev pub mix_hash : ℕ → ℕ
mix_hash h1 =
    let a = u32 (h1 + shl32 h1 13) in
    let b = bit_xor a (sar32 a 7) in
    let c = u32 (b + shl32 b 3) in let d = bit_xor c (sar32 c 17) in u32 (d + shl32 d 5)

-- The bytes in [start .. end): the loop goes on while p + 4 < end.
unfoldable pub checksum : (ℕ → ℕ) → ℕ → ℕ → ℕ
checksum bytes start end = mix_hash (hash_words bytes ((end - start - 1) / 4) start 2166136261)

-- The marks of a run of so many microseconds; REF_SCORE is 100000.
unfoldable pub score : ℕ → ℕ → ℕ
score ref usec = if usec == 0 then 0 else 100000 * ref % 2 ^ 64 / usec % 2 ^ 32
