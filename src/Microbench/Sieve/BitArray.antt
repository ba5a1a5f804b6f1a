-- ===== src/Microbench/Sieve/BitArray.antt =====
-- The bits of the array of ysyx-workbench/am-kernels/benchmarks/microbench/src/sieve/sieve.c.
use for_ysyx_self_store_by_h.Base.{
  ℕ, zero, suc, ◌/◌, ◌%◌, ◌<◌, ◌≡◌, refl, arith, true, false, inl, inr, if◌then◌else◌, ◌==◌, ==_iff,
  Bool-cases, bits, bit_and, passes_below, passes_below-lt, bit_and_step, div-two_pow_suc,
}
use Prim.Native.Nat.{min}
use for_ysyx_self_store_by_h.Microbench.Sieve.{get, mask, clear}

pub get-lt : (primes : ℕ → ℕ) (n : ℕ) → get primes n < 2
unfolding get
get-lt primes n = omega arith

-- A bit of a bitwise and.
bits-bit_and : (m x y : ℕ) → bits (bit_and x y) m 1 ≡ min (bits x m 1) (bits y m 1)
bits-bit_and zero x y = omega (arith, bit_and_step x y)
bits-bit_and (suc m) x y =
    let halves : bit_and x y / 2 ≡ bit_and (x / 2) (y / 2) = omega (arith, bit_and_step x y) in
    rw (div-two_pow_suc (bit_and x y) m) (
      rw (div-two_pow_suc x m)
        (rw (div-two_pow_suc y m) (rw halves (bits-bit_and m (x / 2) (y / 2)))))

mask_table :
    passes_below (λ k. passes_below (λ m. bits (mask k) m 1 == (if k == m then 0 else 1)) 32) 32
    ≡ true
unfolding passes_below
mask_table = refl

bits-mask : (k m : ℕ) → k < 32 → m < 32 → bits (mask k) m 1 ≡ (if k == m then 0 else 1)
bits-mask k m hk hm =
    let row =
      passes_below-lt (λ k. passes_below (λ m. bits (mask k) m 1 == (if k == m then 0 else 1)) 32)
        32 k mask_table hk in
    (==_iff _ _).0
      (passes_below-lt (λ m. bits (mask k) m 1 == (if k == m then 0 else 1)) 32 m row hm)

-- clear puts out one bit.
pub get-clear :
    (primes : ℕ → ℕ) (n m : ℕ) → get (clear primes n) m ≡ (if n == m then 0 else get primes m)
unfolding get clear
get-clear primes n m = elim (Bool-cases (n / 32 == m / 32)) [
  | inr other ↦ let apart : (n == m) ≡ false = ground arith in rw other (rw apart refl)
  | inl same ↦
      let e : n / 32 ≡ m / 32 = (==_iff _ _).0 same in
      rw same (
        rw (bits-bit_and (m % 32) (primes (n / 32)) (mask (n % 32)))
          (rw (bits-mask (n % 32) (m % 32) (omega arith) (omega arith)) (rw e (ground arith))))
]
