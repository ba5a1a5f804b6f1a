-- ===== src/Nemu/Pattern/Correct.antt =====
-- pattern_decode and the test of INSTPAT decide what the pattern means.
use native.Mathlib.Nat.{div-div-eq-div-mul, pow-suc, one-le-pow, mul-div_cancel}
use mathlib.Core.Path.{ap₂}
use for_ysyx_self_store_by_h.Base.{
  ℕ, zero, suc, ◌+◌, ◌*◌, ◌/◌, ◌%◌, ◌^◌, ◌<◌, ◌≤◌, Bool, true, ◌&&◌, List, [], ◌∷◌, if◌then◌else◌,
  ◌==◌, ◌≡◌, refl, ap, sym, ◌∙◌, arith, bit_and, bit_and-zero, length, Bool-cases, inl, inr,
}
use for_ysyx_self_store_by_h.Nemu.Pattern.{
  Bits, Decoded, decoded, too_long, is_pattern_char, push, finish, scan, pattern_decode, test,
}
use for_ysyx_self_store_by_h.Nemu.Pattern.Follows.{Follows, extended, push-Follows, mul-two_pow_suc}
use for_ysyx_self_store_by_h.Nemu.Pattern.Meaning.{width, accepts, matches, IsPattern}

cancel : (m s : ℕ) → m * 2 ^ s / 2 ^ s ≡ m
cancel m s = mul-div_cancel m (one-le-pow s 2 (omega arith))

-- The shift behind `finish` drops zeros only.
finish-test :
    (left : ℕ) (b : Bits) (P : ℕ → Bool)
    → Follows left b.key b.mask b.shift P
    → (inst : ℕ) → test (finish b) inst ≡ P inst
finish-test left b P f inst =
    ap₂ (λ (m k : ℕ). bit_and (inst / 2 ^ b.shift) m == k)
      (ap (λ (m : ℕ). m / 2 ^ b.shift) f.mask_is ∙ cancel f.high_mask b.shift)
      (ap (λ (k : ℕ). k / 2 ^ b.shift) f.key_is ∙ cancel f.high_key b.shift)
    ∙ f.agrees inst

Follows-fewer :
    (left key mask shift : ℕ) (P : ℕ → Bool)
    → Follows (suc left) key mask shift P
    → Follows left key mask shift P
Follows-fewer left key mask shift P f = record {
  high_key = f.high_key;
  high_mask = f.high_mask;
  key_is = f.key_is;
  mask_is = f.mask_is;
  key_fits = omega (arith, f.key_fits, mul-two_pow_suc (key + 1) left);
  mask_fits = omega (arith, f.mask_fits, mul-two_pow_suc (mask + 1) left);
  agrees = f.agrees;
}

-- What a scan of the rest of a pattern must return, after a prefix whose meaning is `P`.
abbrev Decides : Decoded → (ℕ → Bool) → List ℕ → Type 0
Decides d P cs =
    (b : Bits) × (d ≡ decoded b)
    × ((inst : ℕ) → test b inst ≡ (P (inst / 2 ^ width cs) && matches cs inst))

regroup : (P : ℕ → Bool) (a m : Bool) (x y : ℕ) → x ≡ y → ((P x && a) && m) ≡ (P y && (a && m))
regroup P a m x y e = rw e (ground arith)

half : (inst w : ℕ) → inst / 2 ^ w / 2 ≡ inst / 2 ^ (w + 1)
half inst w =
    let e : w + 1 ≡ suc w = omega arith in
    div-div-eq-div-mul inst (2 ^ w) 2
    ∙ ap (λ d. inst / d) (sym (pow-suc 2 w) ∙ ap (λ (k : ℕ). 2 ^ k) (sym e))

-- A scan with enough steps left decides the prefix and the rest together.
scan-Decides :
    (left : ℕ) (cs : List ℕ) (b : Bits) (P : ℕ → Bool)
    → length cs < left
    → IsPattern cs
    → Follows left b.key b.mask b.shift P
    → Decides (scan left cs b) P cs
unfolding scan
scan-Decides zero cs b P h ok f = elim h [ ]
scan-Decides (suc left) [] b P h ok f = (
  finish b,
  refl,
  λ inst. finish-test (suc left) b P f inst ∙ whole (inst / 1) inst (omega arith),
)
  where
    whole : (x y : ℕ) → x ≡ y → P y ≡ (P x && true)
    whole x y e = rw e (ground arith)
scan-Decides (suc left) (c ∷ cs) b P h ok f = elim (Bool-cases (c == b' ')) [
  | inl space ↦
      rw space
        (scan-Decides left cs b P (omega arith) ok.1 (Follows-fewer left b.key b.mask b.shift P f))
  | inr other ↦
      let valid : is_pattern_char c ≡ true = ground (arith, ok.0) in
      let (b', returns, decides) =
        scan-Decides left cs (push b c) (extended left c b.key b.mask b.shift P f) (omega arith)
          ok.1 (push-Follows left c b.key b.mask b.shift P f valid) in
      rw (other, valid)
        (
          b',
          returns,
          λ inst.
              decides inst
              ∙ regroup P (accepts c (inst / 2 ^ width cs % 2)) (matches cs inst) _ _
                  (half inst (width cs)),
        )
]

-- A pattern of 0, 1, ? and spaces, shorter than 64 characters, is decoded without an error, and for
-- every instruction the test of INSTPAT with the result is true exactly when each character that is
-- not a space accepts its bit, the last one bit 0.
pub pattern_decode-matches :
    (text : List ℕ)
    → length text < 64
    → IsPattern text
    → (b : Bits) × (pattern_decode text ≡ decoded b)
      × ((inst : ℕ) → test b inst ≡ matches text inst)
unfolding pattern_decode
pattern_decode-matches text short ok =
    scan-Decides 64 text (record { key = 0; mask = 0; shift = 0 }) (λ y. true) short ok empty
  where
    empty : Follows 64 0 0 0 (λ y. true)
    empty = record {
      high_key = 0;
      high_mask = 0;
      key_is = refl;
      mask_is = refl;
      key_fits = omega arith;
      mask_fits = omega arith;
      agrees = λ y. rw bit_and-zero refl;
    }

scan-too_long :
    (left : ℕ) (cs : List ℕ) (b : Bits)
    → left ≤ length cs
    → IsPattern cs
    → scan left cs b ≡ too_long
unfolding scan
scan-too_long zero cs b h ok = refl
scan-too_long (suc left) [] b h ok = elim h [ ]
scan-too_long (suc left) (c ∷ cs) b h ok =
    rw ok.0 (scan-too_long left cs (if c == b' ' then b else push b c) (omega arith) ok.1)

-- A pattern of 64 or more characters, spaces included, runs into the panic: also the 64-bit pattern
-- that the 64 unrolled steps could hold.
pub pattern_decode-too_long :
    (text : List ℕ) → 64 ≤ length text → IsPattern text → pattern_decode text ≡ too_long
unfolding pattern_decode
pattern_decode-too_long text long ok =
    scan-too_long 64 text (record { key = 0; mask = 0; shift = 0 }) long ok
