-- ===== src/MiniRv/Exec.antt =====
-- The function inst_cycle of ysyx-workbench/am-kernels/tests/self/C_mini/C_minirv/main.c, one
-- definition for each case of its switch. The host is little-endian.
use for_ysyx_self_store_by_h.Base.{
  ℕ, ◌+◌, ◌-◌, ◌*◌, ◌/◌, ◌^◌, ◌&&◌, Option, none, some, if◌then◌else◌, ◌==◌, u32, bits, shl32,
  sar32, bit_or, update, load8, load32, store8, store32,
}
use for_ysyx_self_store_by_h.MiniRv.Machine.{
  mem_size, State, hit_good_trap, hit_bad_trap, ecall_called, unknown_instruction, Outcome, running,
  exited, fault,
}

-- `Register[rd] = v`.
abbrev pub set_reg : State → ℕ → ℕ → State
set_reg s rd v = record s { regs = update s.regs rd v }

-- The sign extension that OP-IMM, JALR, LOAD and STORE write out: up by 20 and down, as an int32_t.
abbrev pub sign_extend : ℕ → ℕ
sign_extend imm_12 = sar32 (shl32 imm_12 20) 20

unfoldable pub exec_op : State → ℕ → Outcome
exec_op s inst =
    let rd = bits inst 7 5 in
    let funct3 = bits inst 12 3 in
    let rs1 = bits inst 15 5 in
    let rs2 = bits inst 20 5 in
    let funct7 = bits inst 25 7 in
    if (funct3 == 0) && (funct7 == 0)
    then running (set_reg s rd (u32 (s.regs rs1 + s.regs rs2)))
    else running s

unfoldable pub exec_op_imm : State → ℕ → Outcome
exec_op_imm s inst =
    let rd = bits inst 7 5 in
    let funct3 = bits inst 12 3 in
    let rs1 = bits inst 15 5 in
    let imm = sign_extend (inst / 2 ^ 20) in
    if funct3 == 0 then running (set_reg s rd (u32 (s.regs rs1 + imm))) else running s

-- `inst & 0xFFFFF000` clears the low 12 bits.
unfoldable pub exec_lui : State → ℕ → Outcome
exec_lui s inst =
    let rd = bits inst 7 5 in let imm = inst / 2 ^ 12 * 2 ^ 12 in running (set_reg s rd imm)

-- `x & ~1` clears the lowest bit. The old PC is read before it is changed.
unfoldable pub exec_jalr : State → ℕ → Outcome
exec_jalr s inst =
    let rd = bits inst 7 5 in
    let funct3 = bits inst 12 3 in
    let rs1 = bits inst 15 5 in
    let imm = sign_extend (inst / 2 ^ 20) in
    let temp = s.pc in
    if funct3 == 0
    then running (set_reg (record s { pc = u32 (s.regs rs1 + imm) / 2 * 2 }) rd temp)
    else running s

-- `Register[rd] = …` of a load, which may be out of range.
abbrev pub put_loaded : State → ℕ → Option ℕ → Outcome
put_loaded s rd none = fault
put_loaded s rd (some v) = running (set_reg s rd v)

unfoldable pub exec_load : State → ℕ → Outcome
exec_load s inst =
    let rd = bits inst 7 5 in
    let funct3 = bits inst 12 3 in
    let rs1 = bits inst 15 5 in
    let imm = sign_extend (inst / 2 ^ 20) in
    let addr = u32 (s.regs rs1 + imm) in
    if funct3 == 2
    then put_loaded s rd (load32 mem_size s.memory addr)
    else if funct3 == 4
    then put_loaded s rd (load8 mem_size s.memory addr)
    else running s

-- The memory after a store, which may be out of range.
abbrev pub put_stored : State → Option (ℕ → ℕ) → Outcome
put_stored s none = fault
put_stored s (some m) = running (record s { memory = m })

unfoldable pub exec_store : State → ℕ → Outcome
exec_store s inst =
    let funct3 = bits inst 12 3 in
    let rs1 = bits inst 15 5 in
    let rs2 = bits inst 20 5 in
    let imm_12 = bit_or (bits inst 7 5) (inst / 2 ^ 25 * 2 ^ 5) in
    let imm = sign_extend imm_12 in
    let addr = u32 (s.regs rs1 + imm) in
    if funct3 == 2
    then put_stored s (store32 mem_size s.memory addr (s.regs rs2))
    else if funct3 == 0
    then put_stored s (store8 mem_size s.memory addr (s.regs rs2))
    else running s

unfoldable pub exec_system : State → ℕ → Outcome
exec_system s inst =
    let funct3 = bits inst 12 3 in
    let imm_12 = inst / 2 ^ 20 in
    if funct3 == 0
    then if imm_12 == 1
      then if s.regs 10 == 0 then exited 0 hit_good_trap else exited 0 hit_bad_trap
      else if imm_12 == 0
      then exited 0 ecall_called
      else running s
    else running s

-- The switch on the opcode.
unfoldable pub execute : State → ℕ → Outcome
execute s inst =
    let opcode = bits inst 0 7 in
    if opcode == 0x33
    then exec_op s inst
    else if opcode == 0x13
    then exec_op_imm s inst
    else if opcode == 0x37
    then exec_lui s inst
    else if opcode == 0x67
    then exec_jalr s inst
    else if opcode == 0x03
    then exec_load s inst
    else if opcode == 0x23
    then exec_store s inst
    else if opcode == 0x73
    then exec_system s inst
    else exited 1 (unknown_instruction opcode (u32 (s.pc + 2 ^ 32 - 4)))

-- `PC += 4; Register[0] = 0;`, between the fetch and the switch.
abbrev pub fetched : State → State
fetched s = record s { regs = update s.regs 0 0; pc = u32 (s.pc + 4) }

-- The rest of the cycle, for a fetch that may be out of range.
abbrev pub on_fetch : State → Option ℕ → Outcome
on_fetch s none = fault
on_fetch s (some inst) = execute (fetched s) inst

unfoldable pub inst_cycle : State → Outcome
inst_cycle s = on_fetch s (load32 mem_size s.rom s.pc)
