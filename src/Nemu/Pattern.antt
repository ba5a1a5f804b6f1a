-- ===== src/Nemu/Pattern.antt =====
-- The pattern matching mechanism of ysyx-workbench/nemu/include/cpu/decode.h: pattern_decode, and
-- the test that the macro INSTPAT makes with its result.
pub mod Meaning
mod Follows
pub mod Correct
mod Examples
use for_ysyx_self_store_by_h.Base.{
  ℕ, zero, suc, ◌+◌, ◌*◌, ◌/◌, ◌%◌, ◌^◌, Bool, true, false, ◌||◌, List, [], ◌∷◌, if◌then◌else◌,
  ◌==◌, bit_and, bit_or, leb, ◌&&◌, ◌-◌,
}

-- The locals __key, __mask and __shift, each a uint64_t.
pub record Bits : Type 0 where
  pub key : ℕ
  pub mask : ℕ
  pub shift : ℕ

-- The three results, or the failed assertion on a character, or the panic on a long pattern.
pub data Decoded : Type 0 where
  decoded : Bits → Decoded
  invalid_character : ℕ → Decoded
  too_long : Decoded

abbrev pub u64 : ℕ → ℕ
u64 n = n % 2 ^ 64

abbrev pub is_pattern_char : ℕ → Bool
is_pattern_char c = c == b'0' || (c == b'1' || c == b'?')

-- One character that is not a space.
unfoldable pub push : Bits → ℕ → Bits
push b c = record {
  key = bit_or (u64 (b.key * 2)) (if c == b'1' then 1 else 0);
  mask = bit_or (u64 (b.mask * 2)) (if c == b'?' then 0 else 1);
  shift = if c == b'?' then b.shift + 1 else 0;
}

-- The code behind the label `finish`.
abbrev pub finish : Bits → Bits
finish b = record { key = b.key / 2 ^ b.shift; mask = b.mask / 2 ^ b.shift; shift = b.shift }

-- The unrolled steps macro(i), with so many of the 64 left.
unfoldable pub scan : ℕ → List ℕ → Bits → Decoded
scan zero cs b = too_long
scan (suc left) [] b = decoded (finish b)
scan (suc left) (c ∷ cs) b =
    let rest = scan left cs (if c == b' ' then b else push b c) in
    if c == b' ' || is_pattern_char c then rest else invalid_character c

unfoldable pub pattern_decode : List ℕ → Decoded
unfolding scan push
pattern_decode text = scan 64 text (record { key = 0; mask = 0; shift = 0 })

-- `((inst >> shift) & mask) == key`, the test of INSTPAT.
abbrev pub test : Bits → ℕ → Bool
test b inst = bit_and (inst / 2 ^ b.shift) b.mask == b.key

-- pattern_decode_hex takes four bits for a character.
abbrev pub is_hex_char : ℕ → Bool
is_hex_char c = leb b'0' c && leb c b'9' || (leb b'a' c && leb c b'f' || c == b'?')

abbrev pub hex_value : ℕ → ℕ
hex_value c = if c == b'?' then 0 else if leb b'0' c && leb c b'9' then c - b'0' else c - b'a' + 10

unfoldable pub push_hex : Bits → ℕ → Bits
push_hex b c = record {
  key = bit_or (u64 (b.key * 2 ^ 4)) (hex_value c);
  mask = bit_or (u64 (b.mask * 2 ^ 4)) (if c == b'?' then 0 else 0xf);
  shift = if c == b'?' then b.shift + 4 else 0;
}

unfoldable pub scan_hex : ℕ → List ℕ → Bits → Decoded
scan_hex zero cs b = too_long
scan_hex (suc left) [] b = decoded (finish b)
scan_hex (suc left) (c ∷ cs) b =
    let rest = scan_hex left cs (if c == b' ' then b else push_hex b c) in
    if c == b' ' || is_hex_char c then rest else invalid_character c

unfoldable pub pattern_decode_hex : List ℕ → Decoded
unfolding scan_hex push_hex
pattern_decode_hex text = scan_hex 16 text (record { key = 0; mask = 0; shift = 0 })
