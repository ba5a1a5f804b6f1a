-- ===== src/Nemu/Mips32/Fields.antt =====
-- decode_exec of ysyx-workbench/nemu/src/isa/mips32/inst.c, read off the fields of the
-- instruction word.
use for_ysyx_self_store_by_h.Base.{
  ℕ, ◌+◌, ◌*◌, ◌/◌, ◌%◌, ◌^◌, ◌≡◌, true, refl, arith, ◌==◌, ◌&&◌, if◌then◌else◌, bits, bit_and,
  bit_and-split, bit_and-ones, bit_and-zero, low_ones,
}
use for_ysyx_self_store_by_h.Nemu.Result.{Result, ok}
use for_ysyx_self_store_by_h.Nemu.State.{end}
use for_ysyx_self_store_by_h.Nemu.Memory.Mmio.{Config}
use for_ysyx_self_store_by_h.Nemu.Pattern.{pattern_decode}
use for_ysyx_self_store_by_h.Nemu.Riscv32.{Machine, Decode, instpat, invalid_inst, set_nemu_state}
use for_ysyx_self_store_by_h.Nemu.Mips32.{
  lui_pattern, lw_pattern, sw_pattern, sdbbp_pattern, inv_pattern, exec_lui, exec_lw, exec_sw,
  exec_pattern,
}

and_opcode : (x : ℕ) → bit_and x 0x3f ≡ x % 2 ^ 6
unfolding low_ones
and_opcode x = bit_and-ones 6 x

and_both : (x : ℕ) → bit_and x 0xfc00003f ≡ x % 2 ^ 6 + x / 2 ^ 26 % 2 ^ 6 * 2 ^ 26
unfolding low_ones
and_both x =
    omega
      (arith, bit_and-split 26 x 0x3f 0x3f (omega arith), and_opcode x, bit_and-ones 6 (x / 2 ^ 26))

lui_fits : (x : ℕ) → instpat lui_pattern x ≡ (bits x 26 6 == 0x0f)
unfolding pattern_decode
lui_fits x = ground (arith, and_opcode (x / 2 ^ 26))

lw_fits : (x : ℕ) → instpat lw_pattern x ≡ (bits x 26 6 == 0x23)
unfolding pattern_decode
lw_fits x = ground (arith, and_opcode (x / 2 ^ 26))

sw_fits : (x : ℕ) → instpat sw_pattern x ≡ (bits x 26 6 == 0x2b)
unfolding pattern_decode
sw_fits x = ground (arith, and_opcode (x / 2 ^ 26))

sdbbp_fits : (x : ℕ) → instpat sdbbp_pattern x ≡ ((bits x 26 6 == 0x1c) && (bits x 0 6 == 0x3f))
unfolding pattern_decode
sdbbp_fits x = ground (arith, and_both x)

inv_fits : (x : ℕ) → instpat inv_pattern x ≡ true
unfolding pattern_decode
inv_fits x = ground (arith, bit_and-zero (x / 2 ^ 32))

-- The opcodes of lui, lw and sw; sdbbp is a function of the opcode SPECIAL2.
abbrev pub by_fields : {W : Type 0} → Config → Decode → Machine W → Result (Machine W)
by_fields c s m =
    let opcode = bits s.inst 26 6 in
    if opcode == 0x0f
    then exec_lui c s m
    else if opcode == 0x23
    then exec_lw c s m
    else if opcode == 0x2b
    then exec_sw c s m
    else if opcode == 0x1c && bits s.inst 0 6 == 0x3f
    then ok (set_nemu_state end s.pc (m.gpr 2) m)
    else invalid_inst c s.pc m

-- The pattern table of mips32 is a dispatch on fields: on every word it executes the instruction that
-- the opcode names, sdbbp by its function field too, and reports every other word as invalid.
pub mips32-by_fields :
    {W : Type 0} (c : Config) (s : Decode) (m : Machine W) → exec_pattern c s m ≡ by_fields c s m
unfolding exec_pattern
mips32-by_fields c s m =
    rw (lui_fits s.inst, lw_fits s.inst, sw_fits s.inst, sdbbp_fits s.inst, inv_fits s.inst) refl
