-- ===== src/Nemu/Pattern/Follows.antt =====
-- The invariant of pattern_decode: what the key, mask and shift of a prefix say about an instruction.
use native.Mathlib.Nat.{div-div-eq-div-mul, pow-suc, pow-succ', one-le-pow}
use mathlib.Core.Path.{ap₂, subst₃}
use for_ysyx_self_store_by_h.Base.{
  ℕ, zero, suc, ◌+◌, ◌*◌, ◌/◌, ◌%◌, ◌^◌, ◌<◌, ◌≤◌, Bool, true, ◌&&◌, if◌then◌else◌, ◌==◌, ◌≡◌, refl,
  ap, sym, ◌∙◌, arith, bit_and, bit_or, bit_and_step, bit_or_step, inl, inr, ◌⊎◌, bit_or-zero,
}
use for_ysyx_self_store_by_h.Nemu.Pattern.{Bits, is_pattern_char, push, u64}
use for_ysyx_self_store_by_h.Nemu.Pattern.Meaning.{accepts}

div-two_pow_suc : (x s : ℕ) → x / 2 ^ suc s ≡ x / 2 / 2 ^ s
div-two_pow_suc x s = ap (λ d. x / d) (pow-succ' 2 s) ∙ sym (div-div-eq-div-mul x 2 (2 ^ s))

pub mul-two_pow_suc : (m s : ℕ) → m * 2 ^ suc s ≡ 2 * (m * 2 ^ s)
mul-two_pow_suc m s = omega (arith, ap (λ (t : ℕ). m * t) (pow-suc 2 s))

-- A mask that ends in zeros looks at the bits above them only.
bit_and-shifted : (s z m : ℕ) → bit_and z (m * 2 ^ s) ≡ bit_and (z / 2 ^ s) m * 2 ^ s
bit_and-shifted zero z m = ground (arith)
bit_and-shifted (suc s) z m = ground (
  arith,
  mul-two_pow_suc m s,
  mul-two_pow_suc (bit_and (z / 2 ^ suc s) m) s,
  div-two_pow_suc z s,
  bit_and_step z (m * 2 ^ suc s),
  bit_and-shifted s (z / 2) m,
)

-- Adding a lowest bit.
bit_or-low : (q b : ℕ) → b < 2 → bit_or (q * 2) b ≡ q * 2 + b
bit_or-low q b h = ground (arith, bit_or_step (q * 2) b, bit_or-zero q)

-- After a prefix whose meaning is `P`, with `left` of the 64 steps left.
pub record Follows (left key mask shift : ℕ) (P : ℕ → Bool) : Type 0 where
  pub high_key : ℕ
  pub high_mask : ℕ
  pub key_is : key ≡ high_key * 2 ^ shift
  pub mask_is : mask ≡ high_mask * 2 ^ shift
  pub key_fits : (key + 1) * 2 ^ left ≤ 2 ^ 64
  pub mask_fits : (mask + 1) * 2 ^ left ≤ 2 ^ 64
  pub agrees : (y : ℕ) → (bit_and (y / 2 ^ shift) high_mask == high_key) ≡ P y

-- A word that grows by a bit still leaves room for the bits to come.
room_low : (left x : ℕ) → (x + 1) * 2 ^ suc left ≤ 2 ^ 64 → x * 2 + 1 < 2 ^ 64
room_low left x h =
    let one : 1 ≤ 2 ^ left = one-le-pow left 2 (omega arith) in
    let double : (x + 1) * 2 ^ suc left ≡ 2 * ((x + 1) * 2 ^ left) = mul-two_pow_suc (x + 1) left in
    let least : x + 1 ≤ (x + 1) * 2 ^ left = grind arith in omega arith

room_bit :
    (left x bit : ℕ)
    → bit < 2
    → (x + 1) * 2 ^ suc left ≤ 2 ^ 64
    → (x * 2 + bit + 1) * 2 ^ left ≤ 2 ^ 64
room_bit left x bit h fits =
    let double : (x + 1) * 2 ^ suc left ≡ 2 * ((x + 1) * 2 ^ left) = mul-two_pow_suc (x + 1) left in
    let below : x * 2 + bit + 1 ≤ (x + 1) * 2 = omega arith in
    let scaled : (x * 2 + bit + 1) * 2 ^ left ≤ (x + 1) * 2 * 2 ^ left = grind arith in omega arith

-- A question mark.
skip-Follows :
    (left key mask shift : ℕ) (P : ℕ → Bool)
    → Follows (suc left) key mask shift P
    → Follows left (key * 2 + 0) (mask * 2 + 0) (shift + 1) (λ y. P (y / 2))
skip-Follows left key mask shift P f =
    let e : shift + 1 ≡ suc shift = omega arith in
    record {
      high_key = f.high_key;
      high_mask = f.high_mask;
      key_is = rw e (omega (arith, f.key_is, mul-two_pow_suc f.high_key shift));
      mask_is = rw e (omega (arith, f.mask_is, mul-two_pow_suc f.high_mask shift));
      key_fits = room_bit left key 0 (omega arith) f.key_fits;
      mask_fits = room_bit left mask 0 (omega arith) f.mask_fits;
      agrees = λ y.
          ap (λ (t : ℕ). bit_and t f.high_mask == f.high_key)
            (ap (λ (k : ℕ). y / 2 ^ k) e ∙ div-two_pow_suc y shift)
          ∙ f.agrees (y / 2);
    }

mul_gap : (a b p : ℕ) → a < b → a * p + p ≤ b * p
mul_gap a b p h = grind arith

-- The lowest bit is compared apart from the others.
low_apart :
    (a b p r bit : ℕ)
    → 1 ≤ p
    → r < 2
    → bit < 2
    → (a * p * 2 + r == b * p * 2 + bit) ≡ ((a == b) && (r == bit))
low_apart a b p r bit pos hr hb = ground (arith, mul_gap a b p, mul_gap b a p)

-- A digit.
digit-Follows :
    (left key mask shift bit : ℕ) (P : ℕ → Bool)
    → bit < 2
    → Follows (suc left) key mask shift P
    → Follows left (key * 2 + bit) (mask * 2 + 1) 0 (λ y. P (y / 2) && (y % 2 == bit))
digit-Follows left key mask shift bit P small f = record {
  high_key = key * 2 + bit;
  high_mask = mask * 2 + 1;
  key_is = omega arith;
  mask_is = omega arith;
  key_fits = room_bit left key bit small f.key_fits;
  mask_fits = room_bit left mask 1 (omega arith) f.mask_fits;
  agrees = λ y.
      let high : bit_and (y / 2) mask ≡ bit_and (y / 2 / 2 ^ shift) f.high_mask * 2 ^ shift =
        ap (bit_and (y / 2)) f.mask_is ∙ bit_and-shifted shift (y / 2) f.high_mask in
      let whole : bit_and (y / 2 ^ 0) (mask * 2 + 1)
          ≡ bit_and (y / 2 / 2 ^ shift) f.high_mask * 2 ^ shift * 2 + y % 2 =
        ground (arith, bit_and_step y (mask * 2 + 1), high) in
      let split =
        low_apart (bit_and (y / 2 / 2 ^ shift) f.high_mask) f.high_key (2 ^ shift) (y % 2) bit
          (one-le-pow shift 2 (omega arith)) (omega arith) small in
      ap₂ (λ (t u : ℕ). t == u * 2 + bit) whole f.key_is
      ∙ split
      ∙ ap (λ (t : Bool). t && (y % 2 == bit)) (f.agrees (y / 2));
}

module _ (left c key mask shift : ℕ) (P : ℕ → Bool) (f : Follows (suc left) key mask shift P) where
  abbrev pub before : Bits
  before = record { key = key; mask = mask; shift = shift }

  abbrev pub after : Bits
  after = push before c

  -- The wrap at 64 bits cuts nothing off, and the new bit is disjoint from the others.
  push_bits :
      (after.key ≡ key * 2 + (if c == b'1' then 1 else 0))
      × (after.mask ≡ mask * 2 + (if c == b'?' then 0 else 1))
  unfolding push
  push_bits =
      let k : u64 (key * 2) ≡ key * 2 = omega (arith, room_low left key f.key_fits) in
      let m : u64 (mask * 2) ≡ mask * 2 = omega (arith, room_low left mask f.mask_fits) in
      (rw k (bit_or-low key _ (ground arith)), rw m (bit_or-low mask _ (ground arith)))

  -- The meaning of the prefix with one more character.
  abbrev pub extended : ℕ → Bool
  extended y = P (y / 2) && accepts c (y % 2)

  Follows-cong :
      {k m s : ℕ} {Q R : ℕ → Bool}
      → ((y : ℕ) → Q y ≡ R y)
      → Follows left k m s Q
      → Follows left k m s R
  Follows-cong e g = record {
    high_key = g.high_key;
    high_mask = g.high_mask;
    key_is = g.key_is;
    mask_is = g.mask_is;
    key_fits = g.key_fits;
    mask_fits = g.mask_fits;
    agrees = λ y. g.agrees y ∙ e y;
  }

  push_shift : after.shift ≡ (if c == b'?' then shift + 1 else 0)
  unfolding push
  push_shift = refl

  char_cases : is_pattern_char c ≡ true → (c ≡ b'0') ⊎ ((c ≡ b'1') ⊎ (c ≡ b'?'))
  char_cases ok = ground arith

  summed-Follows :
      (c ≡ b'0') ⊎ ((c ≡ b'1') ⊎ (c ≡ b'?'))
      → Follows left
          (key * 2 + (if c == b'1' then 1 else 0))
          (mask * 2 + (if c == b'?' then 0 else 1))
          (if c == b'?' then shift + 1 else 0)
          extended
  summed-Follows (inl e) =
      rw e (Follows-cong (λ y. refl) (digit-Follows left key mask shift 0 P (omega arith) f))
  summed-Follows (inr (inl e)) =
      rw e (Follows-cong (λ y. refl) (digit-Follows left key mask shift 1 P (omega arith) f))
  summed-Follows (inr (inr e)) =
      rw e (Follows-cong (λ y. and-true (P (y / 2))) (skip-Follows left key mask shift P f))
    where
      and-true : (b : Bool) → b ≡ (b && true)
      and-true b = ground arith

  pub push-Follows :
      is_pattern_char c ≡ true → Follows left after.key after.mask after.shift extended
  push-Follows ok =
      subst₃ (λ k m s. Follows left k m s extended) (sym push_bits.0) (sym push_bits.1)
        (sym push_shift) (summed-Follows (char_cases ok))
