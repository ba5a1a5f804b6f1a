-- ===== src/Nemu/Pattern/Examples.antt =====
-- The theorems about patterns at the patterns of the riscv32 decoder, and tests.
use for_ysyx_self_store_by_h.Base.{ℕ, ◌≡◌, refl, arith, codes, List}
use for_ysyx_self_store_by_h.Nemu.Pattern.{
  Bits, decoded, too_long, invalid_character, pattern_decode, pattern_decode_hex, test,
}
use for_ysyx_self_store_by_h.Nemu.Pattern.Meaning.{matches, IsPattern-of}
use for_ysyx_self_store_by_h.Nemu.Pattern.Correct.{pattern_decode-matches, pattern_decode-too_long}

abbrev lbu : List ℕ
lbu = codes "??????? ????? ????? 100 ????? 00000 11"

pattern_decode-matches_example :
    (b : Bits) × (pattern_decode lbu ≡ decoded b) × ((inst : ℕ) → test b inst ≡ matches lbu inst)
pattern_decode-matches_example = pattern_decode-matches lbu (omega arith) (IsPattern-of lbu refl)

abbrev blanks : List ℕ
blanks = codes "????????????????????????????????????????????????????????????????"

pattern_decode-too_long_example : pattern_decode blanks ≡ too_long
pattern_decode-too_long_example =
    pattern_decode-too_long blanks (omega arith) (IsPattern-of blanks refl)

ebreak_decoded :
    pattern_decode (codes "0000000 00001 00000 000 00000 11100 11")
    ≡ decoded (record { key = 0x00100073; mask = 0xffffffff; shift = 0 })
unfolding pattern_decode
ebreak_decoded = refl

question_mark_below :
    (pattern_decode (codes "11 ??") ≡ decoded (record { key = 3; mask = 3; shift = 2 }))
    × (pattern_decode (codes "1x0") ≡ invalid_character b'x')
    × (pattern_decode_hex (codes "c? 0f ??")
        ≡ decoded (record { key = 0xc00f; mask = 0xf0ff; shift = 8 }))
unfolding pattern_decode pattern_decode_hex
question_mark_below = (refl, refl, refl)
