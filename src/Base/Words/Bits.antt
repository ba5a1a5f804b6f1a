-- ===== src/Base/Words/Bits.antt =====
-- `bit_or` and `bit_and` at variables, from the recursion on binary digits that they stand for.
use Prim.Native.Nat.{
  ℕ, zero, suc, ◌+◌, ◌*◌, ◌/◌, ◌%◌, ◌^◌, ◌≤◌, ◌<◌, min, max, bit_and, bit_or, digits,
  bit_and-bitwise, bit_or-bitwise,
}
use mathlib.Core.Path.{◌≡◌, refl, ap, sym, ◌∙◌}
use native.Mathlib.Nat.{pow-suc, pow-succ', div-add-mod, div-div-eq-div-mul}
use native.Mathlib.Omega.{arith}

module _ (z : ℕ → ℕ) (f : ℕ → ℕ → ℕ) where
  -- The fuel of `digits` does not matter once it covers the number.
  digits_enough : (n m a b : ℕ) → a ≤ n → a ≤ m → digits z f n a b ≡ digits z f m a b
  digits_enough zero zero a b p q = refl
  digits_enough zero (suc m) zero b p q = refl
  digits_enough zero (suc m) (suc a) b p q = absurd (omega arith)
  digits_enough (suc n) zero zero b p q = refl
  digits_enough (suc n) zero (suc a) b p q = absurd (omega arith)
  digits_enough (suc n) (suc m) zero b p q = refl
  digits_enough (suc n) (suc m) (suc a) b p q =
      omega (arith, digits_enough n m (suc a / 2) (b / 2) (omega arith) (omega arith))

pub bit_or_step : (a b : ℕ) → bit_or a b ≡ bit_or (a / 2) (b / 2) * 2 + max (a % 2) (b % 2)
bit_or_step zero b = omega (arith, bit_or-bitwise 0 b, bit_or-bitwise 0 (b / 2))
bit_or_step (suc a) b = omega (
  arith,
  bit_or-bitwise (suc a) b,
  bit_or-bitwise (suc a / 2) (b / 2),
  digits_enough (λ y. y) max a (suc a / 2) (suc a / 2) (b / 2) (omega arith) (omega arith),
)

pub bit_and_step : (a b : ℕ) → bit_and a b ≡ bit_and (a / 2) (b / 2) * 2 + min (a % 2) (b % 2)
bit_and_step zero b = omega (arith, bit_and-bitwise 0 b, bit_and-bitwise 0 (b / 2))
bit_and_step (suc a) b = omega (
  arith,
  bit_and-bitwise (suc a) b,
  bit_and-bitwise (suc a / 2) (b / 2),
  digits_enough (λ y. 0) min a (suc a / 2) (suc a / 2) (b / 2) (omega arith) (omega arith),
)

pub zero-bit_or : (b : ℕ) → bit_or 0 b ≡ b
zero-bit_or b = bit_or-bitwise 0 b

pub zero-bit_and : (b : ℕ) → bit_and 0 b ≡ 0
zero-bit_and b = bit_and-bitwise 0 b

bit_and-zero_below : (x bound : ℕ) → x ≤ bound → bit_and x 0 ≡ 0
bit_and-zero_below zero bound below = refl
bit_and-zero_below (suc x) zero below = absurd (omega arith)
bit_and-zero_below (suc x) (suc bound) below =
    let halved = bit_and-zero_below (suc x / 2) bound (omega arith) in
    omega (arith, halved, bit_and_step (suc x) 0)

pub bit_and-zero : (x : ℕ) → bit_and x 0 ≡ 0
bit_and-zero x = bit_and-zero_below x x (omega arith)

bit_or-zero_below : (x bound : ℕ) → x ≤ bound → bit_or x 0 ≡ x
bit_or-zero_below zero bound below = refl
bit_or-zero_below (suc x) zero below = absurd (omega arith)
bit_or-zero_below (suc x) (suc bound) below =
    let halved = bit_or-zero_below (suc x / 2) bound (omega arith) in
    omega (arith, halved, bit_or_step (suc x) 0)

pub bit_or-zero : (x : ℕ) → bit_or x 0 ≡ x
bit_or-zero x = bit_or-zero_below x x (omega arith)

-- `low | (high << k)` is a sum when `low` has `k` bits.
pub bit_or-shifted : (k low high : ℕ) → low < 2 ^ k → bit_or low (high * 2 ^ k) ≡ low + high * 2 ^ k
bit_or-shifted zero low high h =
    let e : low ≡ 0 = omega arith in ground (arith, e, zero-bit_or (high * 1))
bit_or-shifted (suc k) low high h = ground (
  arith,
  pow-suc 2 k,
  ap (λ (t : ℕ). high * t) (pow-suc 2 k),
  bit_or_step low (high * 2 ^ suc k),
  bit_or-shifted k (low / 2) high,
)

pub shifted-bit_or : (k low high : ℕ) → low < 2 ^ k → bit_or (high * 2 ^ k) low ≡ high * 2 ^ k + low
shifted-bit_or zero low high h =
    let e : low ≡ 0 = omega arith in ground (arith, e, bit_or-zero (high * 1))
shifted-bit_or (suc k) low high h = ground (
  arith,
  pow-suc 2 k,
  ap (λ (t : ℕ). high * t) (pow-suc 2 k),
  bit_or_step (high * 2 ^ suc k) low,
  shifted-bit_or k (low / 2) high,
)

pub div-two_pow_suc : (x s : ℕ) → x / 2 ^ suc s ≡ x / 2 / 2 ^ s
div-two_pow_suc x s = ap (λ d. x / d) (pow-succ' 2 s) ∙ sym (div-div-eq-div-mul x 2 (2 ^ s))

mul-two_pow_suc : (m s : ℕ) → m * 2 ^ suc s ≡ 2 * (m * 2 ^ s)
mul-two_pow_suc m s = omega (arith, ap (λ (t : ℕ). m * t) (pow-suc 2 s))

-- A mask in two parts.
pub bit_and-split :
    (k x low high : ℕ)
    → low < 2 ^ k
    → bit_and x (low + high * 2 ^ k) ≡ bit_and x low + bit_and (x / 2 ^ k) high * 2 ^ k
bit_and-split zero x low high h = let e : low ≡ 0 = omega arith in ground (arith, e, bit_and-zero x)
bit_and-split (suc k) x low high h = ground (
  arith,
  pow-suc 2 k,
  mul-two_pow_suc high k,
  mul-two_pow_suc (bit_and (x / 2 ^ suc k) high) k,
  div-two_pow_suc x k,
  bit_and_step x (low + high * 2 ^ suc k),
  bit_and_step x low,
  bit_and-split k (x / 2) (low / 2) high,
)

-- A mask of low ones is a remainder, a digit at a time.
unfoldable pub low_ones : ℕ → ℕ
low_ones zero = 0
low_ones (suc k) = low_ones k * 2 + 1

mod-two_pow_suc : (x k : ℕ) → x % 2 ^ suc k ≡ x / 2 % 2 ^ k * 2 + x % 2
mod-two_pow_suc x k =
    let q = x / 2 / 2 ^ k in
    omega (
      arith,
      div-add-mod x (2 ^ suc k),
      div-add-mod (x / 2) (2 ^ k),
      ap (λ (t : ℕ). 2 ^ suc k * t) (div-two_pow_suc x k),
      ap (λ (t : ℕ). t * q) (pow-succ' 2 k),
    )

pub bit_and-ones : (k x : ℕ) → bit_and x (low_ones k) ≡ x % 2 ^ k
unfolding low_ones
bit_and-ones zero x = ground (arith, bit_and-zero x)
bit_and-ones (suc k) x =
    ground (arith, mod-two_pow_suc x k, bit_and_step x (low_ones k * 2 + 1), bit_and-ones k (x / 2))
