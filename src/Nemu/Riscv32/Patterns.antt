-- ===== src/Nemu/Riscv32/Patterns.antt =====
-- What the patterns of decode_exec say about the fields of an instruction word.
use for_ysyx_self_store_by_h.Base.{
  ℕ, ◌+◌, ◌*◌, ◌/◌, ◌%◌, ◌^◌, ◌<◌, true, ◌&&◌, ◌==◌, ◌≡◌, arith, bits, bit_and, bit_and-split,
  bit_and-ones, bit_and-zero, low_ones,
}
use for_ysyx_self_store_by_h.Nemu.Pattern.{pattern_decode}
use for_ysyx_self_store_by_h.Nemu.Riscv32.{
  instpat, auipc_pattern, lbu_pattern, sb_pattern, ebreak_pattern, inv_pattern,
}

-- The masks of the patterns: opcode alone, and opcode with funct3.
and_opcode : (x : ℕ) → bit_and x 0x7f ≡ x % 2 ^ 7
unfolding low_ones
and_opcode x = bit_and-ones 7 x

and_funct3 : (x : ℕ) → bit_and x 0x707f ≡ x % 2 ^ 7 + x / 2 ^ 12 % 2 ^ 3 * 2 ^ 12
unfolding low_ones
and_funct3 x =
    omega
      (arith, bit_and-split 12 x 0x7f 7 (omega arith), and_opcode x, bit_and-ones 3 (x / 2 ^ 12))

pub auipc_fits : (x : ℕ) → instpat auipc_pattern x ≡ (bits x 0 7 == 0x17)
unfolding pattern_decode
auipc_fits x = ground (arith, and_opcode x)

pub lbu_fits : (x : ℕ) → instpat lbu_pattern x ≡ ((bits x 0 7 == 0x03) && (bits x 12 3 == 4))
unfolding pattern_decode
lbu_fits x = ground (arith, and_funct3 x)

pub sb_fits : (x : ℕ) → instpat sb_pattern x ≡ ((bits x 0 7 == 0x23) && (bits x 12 3 == 0))
unfolding pattern_decode
sb_fits x = ground (arith, and_funct3 x)

pub ebreak_fits : (x : ℕ) → x < 2 ^ 32 → instpat ebreak_pattern x ≡ (x == 0x00100073)
unfolding pattern_decode low_ones
ebreak_fits x h = ground (arith, bit_and-ones 32 x)

pub inv_fits : (x : ℕ) → instpat inv_pattern x ≡ true
unfolding pattern_decode
inv_fits x = ground (arith, bit_and-zero (x / 2 ^ 32))
