-- ===== src/Nemu/Loongarch32r/Fields.antt =====
-- decode_exec of ysyx-workbench/nemu/src/isa/loongarch32r/inst.c, read off the fields of the
-- instruction word.
use for_ysyx_self_store_by_h.Base.{
  ℕ, ◌/◌, ◌%◌, ◌^◌, ◌<◌, ◌≡◌, true, refl, arith, ◌==◌, if◌then◌else◌, bits, bit_and, bit_and-ones,
  bit_and-zero, low_ones,
}
use for_ysyx_self_store_by_h.Nemu.Result.{Result, ok}
use for_ysyx_self_store_by_h.Nemu.State.{end}
use for_ysyx_self_store_by_h.Nemu.Memory.Mmio.{Config}
use for_ysyx_self_store_by_h.Nemu.Pattern.{pattern_decode}
use for_ysyx_self_store_by_h.Nemu.Riscv32.{Machine, Decode, instpat, invalid_inst, set_nemu_state}
use for_ysyx_self_store_by_h.Nemu.Loongarch32r.{
  pcaddu12i_pattern, ld_w_pattern, st_w_pattern, break_pattern, inv_pattern, exec_pcaddu12i,
  exec_ld_w, exec_st_w, exec_pattern,
}

and_ones : (n x : ℕ) → bit_and x (low_ones n) ≡ x % 2 ^ n
and_ones n x = bit_and-ones n x

pcaddu12i_fits : (x : ℕ) → x < 2 ^ 32 → instpat pcaddu12i_pattern x ≡ (bits x 25 7 == 0x0e)
unfolding pattern_decode low_ones
pcaddu12i_fits x h = ground (arith, bit_and-ones 7 (x / 2 ^ 25))

ld_w_fits : (x : ℕ) → x < 2 ^ 32 → instpat ld_w_pattern x ≡ (bits x 22 10 == 0xa2)
unfolding pattern_decode low_ones
ld_w_fits x h = ground (arith, bit_and-ones 10 (x / 2 ^ 22))

st_w_fits : (x : ℕ) → x < 2 ^ 32 → instpat st_w_pattern x ≡ (bits x 22 10 == 0xa6)
unfolding pattern_decode low_ones
st_w_fits x h = ground (arith, bit_and-ones 10 (x / 2 ^ 22))

break_fits : (x : ℕ) → x < 2 ^ 32 → instpat break_pattern x ≡ (bits x 15 17 == 0x54)
unfolding pattern_decode low_ones
break_fits x h = ground (arith, bit_and-ones 17 (x / 2 ^ 15))

inv_fits : (x : ℕ) → instpat inv_pattern x ≡ true
unfolding pattern_decode
inv_fits x = ground (arith, bit_and-zero (x / 2 ^ 32))

-- The major opcodes, of 7, 10 and 17 bits.
abbrev pub by_fields : {W : Type 0} → Config → Decode → Machine W → Result (Machine W)
by_fields c s m =
    if bits s.inst 25 7 == 0x0e
    then exec_pcaddu12i c s m
    else if bits s.inst 22 10 == 0xa2
    then exec_ld_w c s m
    else if bits s.inst 22 10 == 0xa6
    then exec_st_w c s m
    else if bits s.inst 15 17 == 0x54
    then ok (set_nemu_state end s.pc (m.gpr 4) m)
    else invalid_inst c s.pc m

-- The pattern table of loongarch32r is a dispatch on fields: on every 32-bit word it executes the
-- instruction that its opcode, of 7, 10 or 17 bits, names, and reports every other word as invalid.
loongarch32r-by_fields :
    {W : Type 0} (c : Config) (s : Decode) (m : Machine W)
    → s.inst < 2 ^ 32
    → exec_pattern c s m ≡ by_fields c s m
unfolding exec_pattern
loongarch32r-by_fields c s m h =
    rw
      (
        pcaddu12i_fits s.inst h,
        ld_w_fits s.inst h,
        st_w_fits s.inst h,
        break_fits s.inst h,
        inv_fits s.inst,
      )
      refl
