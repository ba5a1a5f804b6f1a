-- ===== src/Nemu/Riscv32/Dispatch.antt =====
-- decode_exec of riscv32, read off the fields of the instruction word.
use for_ysyx_self_store_by_h.Base.{
  ℕ, ◌+◌, ◌*◌, ◌%◌, ◌^◌, ◌<◌, ◌≡◌, refl, arith, ◌==◌, ◌&&◌, if◌then◌else◌, bits, bit_or,
  shifted-bit_or, ap, ◌∙◌, sext32, u32,
}
use for_ysyx_self_store_by_h.Nemu.Result.{Result, ok}
use for_ysyx_self_store_by_h.Nemu.State.{end}
use for_ysyx_self_store_by_h.Nemu.Memory.Mmio.{Config}
use for_ysyx_self_store_by_h.Nemu.Riscv32.{
  Machine, Decode, set_nemu_state, invalid_inst, exec_auipc, exec_lbu, exec_sb, exec_pattern,
  decode_operand, type_s,
}
use for_ysyx_self_store_by_h.Nemu.Riscv32.Patterns.{
  auipc_fits, lbu_fits, sb_fits, ebreak_fits, inv_fits,
}

-- What the manual says of the four instructions that are there: opcode AUIPC; LOAD with the funct3
-- of lbu; STORE with that of sb; and the word of ebreak.
abbrev pub by_fields : {W : Type 0} → Config → Decode → Machine W → Result (Machine W)
by_fields c s m =
    let opcode = bits s.inst 0 7 in
    let funct3 = bits s.inst 12 3 in
    if opcode == 0x17
    then exec_auipc c s m
    else if opcode == 0x03 && funct3 == 4
    then exec_lbu c s m
    else if opcode == 0x23 && funct3 == 0
    then exec_sb c s m
    else if s.inst == 0x00100073
    then ok (set_nemu_state end s.pc (m.gpr 10) m)
    else invalid_inst c s.pc m

-- The pattern table of decode_exec is a dispatch on fields: on every 32-bit word, it executes the
-- instruction that opcode and funct3 name, and every other word is reported as invalid.
pub exec_pattern-by_fields :
    {W : Type 0} (c : Config) (s : Decode) (m : Machine W)
    → s.inst < 2 ^ 32
    → exec_pattern c s m ≡ by_fields c s m
unfolding exec_pattern
exec_pattern-by_fields c s m h =
    rw (auipc_fits s.inst, lbu_fits s.inst, sb_fits s.inst, ebreak_fits s.inst h, inv_fits s.inst)
      refl

-- The immediate of a store, put together from two fields, is the sign extension of the 12-bit
-- immediate that the fields hold.
decode_operand-imm_s :
    (gpr : ℕ → ℕ) (i : ℕ)
    → (decode_operand gpr i type_s).imm ≡ sext32 (bits i 25 7 * 2 ^ 5 + bits i 7 5) 12
unfolding decode_operand
decode_operand-imm_s gpr i =
    let high = sext32 (bits i 25 7) 7 % 2 ^ 27 in
    let shifted : u32 (sext32 (bits i 25 7) 7 * 2 ^ 5) ≡ high * 2 ^ 5 = omega arith in
    ap (λ h. bit_or h (bits i 7 5)) shifted
    ∙ (shifted-bit_or 5 (bits i 7 5) high (omega arith) ∙ ground arith)
