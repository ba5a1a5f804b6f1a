-- ===== src/Screen/Machine.antt =====
-- The globals and inst_cycle of ysyx-workbench/am-kernels/tests/self/C_minirv_screen/main.c. The
-- cases OP, OP-IMM, LUI and JALR are the text of those of C_minirv, and act on the registers and PC
-- in the same way; the others are written out.
use for_ysyx_self_store_by_h.Base.{
  ℕ, ◌+◌, ◌-◌, ◌*◌, ◌/◌, ◌^◌, Bool, false, ◌&&◌, Option, none, some, if◌then◌else◌, leb, ltb, ◌==◌,
  u32, bits, bit_or, update, load8, load32, store8, store32,
}
use for_ysyx_self_store_by_h.MiniRv.Machine.{
  Message, hit_good_trap, hit_bad_trap, ecall_called, unknown_instruction, running, exited, fault,
}
use for_ysyx_self_store_by_h.MiniRv.Machine
use for_ysyx_self_store_by_h.MiniRv.Exec

-- ROM_SIZE_BYTES and RAM_SIZE_BYTES.
abbrev pub rom_size : ℕ
rom_size = 2 ^ 20

abbrev pub ram_size : ℕ
ram_size = 2 ^ 32

-- The frame buffer, which ends before `screen_end`.
abbrev pub screen_base : ℕ
screen_base = 0x20000000

abbrev pub screen_end : ℕ
screen_end = 0x20040000

-- Register, Memory, ROM and PC are those of C_minirv; `screen` has 256 * 256 words. `trap` is the
-- message that ebreak printed.
pub record State : Type 0 where
  pub cpu : Machine.State
  pub screen : ℕ → ℕ
  pub is_running : Bool
  pub trap : Option Message

pub data Outcome : Type 0 where
  goes_on : State → Outcome
  ended : (code : ℕ) → Message → Outcome
  out_of_range : Outcome

-- What a case does to the processor alone.
abbrev pub on_cpu : State → Machine.Outcome → Outcome
on_cpu s (running c) = goes_on (record s { cpu = c })
on_cpu s (exited code m) = ended code m
on_cpu s fault = out_of_range

unfoldable pub exec_op : State → ℕ → Outcome
exec_op s inst = on_cpu s (Exec.exec_op s.cpu inst)

unfoldable pub exec_op_imm : State → ℕ → Outcome
exec_op_imm s inst = on_cpu s (Exec.exec_op_imm s.cpu inst)

unfoldable pub exec_lui : State → ℕ → Outcome
exec_lui s inst = on_cpu s (Exec.exec_lui s.cpu inst)

unfoldable pub exec_jalr : State → ℕ → Outcome
exec_jalr s inst = on_cpu s (Exec.exec_jalr s.cpu inst)

unfoldable pub exec_load : State → ℕ → Outcome
exec_load s inst =
    let rd = bits inst 7 5 in
    let funct3 = bits inst 12 3 in
    let rs1 = bits inst 15 5 in
    let imm = Exec.sign_extend (inst / 2 ^ 20) in
    let addr = u32 (s.cpu.regs rs1 + imm) in
    if funct3 == 2
    then on_cpu s (Exec.put_loaded s.cpu rd (load32 ram_size s.cpu.memory addr))
    else if funct3 == 4
    then on_cpu s (Exec.put_loaded s.cpu rd (load8 ram_size s.cpu.memory addr))
    else goes_on s

-- sw: an address in the frame buffer goes to the screen, one word for a pixel.
unfoldable pub store_word : State → ℕ → ℕ → Outcome
store_word s addr v =
    if leb screen_base addr && ltb addr screen_end
    then goes_on (record s { screen = update s.screen ((addr - screen_base) / 4) v })
    else on_cpu s (Exec.put_stored s.cpu (store32 ram_size s.cpu.memory addr v))

unfoldable pub exec_store : State → ℕ → Outcome
exec_store s inst =
    let funct3 = bits inst 12 3 in
    let rs1 = bits inst 15 5 in
    let rs2 = bits inst 20 5 in
    let imm_12 = bit_or (bits inst 7 5) (inst / 2 ^ 25 * 2 ^ 5) in
    let imm = Exec.sign_extend imm_12 in
    let addr = u32 (s.cpu.regs rs1 + imm) in
    if funct3 == 2
    then store_word s addr (s.cpu.regs rs2)
    else if funct3 == 0
    then on_cpu s (Exec.put_stored s.cpu (store8 ram_size s.cpu.memory addr (s.cpu.regs rs2)))
    else goes_on s

-- ebreak prints its message and ends the loop of main; ecall exits.
unfoldable pub exec_system : State → ℕ → Outcome
exec_system s inst =
    let funct3 = bits inst 12 3 in
    let imm_12 = inst / 2 ^ 20 in
    if funct3 == 0
    then if imm_12 == 1
      then goes_on (record s {
        is_running = false;
        trap = some (if s.cpu.regs 10 == 0 then hit_good_trap else hit_bad_trap);
      })
      else if imm_12 == 0
      then ended 0 ecall_called
      else goes_on s
    else goes_on s

unfoldable pub execute : State → ℕ → Outcome
execute s inst =
    let opcode = bits inst 0 7 in
    if opcode == 0x33
    then exec_op s inst
    else if opcode == 0x13
    then exec_op_imm s inst
    else if opcode == 0x37
    then exec_lui s inst
    else if opcode == 0x67
    then exec_jalr s inst
    else if opcode == 0x03
    then exec_load s inst
    else if opcode == 0x23
    then exec_store s inst
    else if opcode == 0x73
    then exec_system s inst
    else ended 1 (unknown_instruction opcode (u32 (s.cpu.pc + 2 ^ 32 - 4)))

-- The fetch, which may be out of range, and the rest of the cycle.
abbrev pub on_fetch : State → Option ℕ → Outcome
on_fetch s none = out_of_range
on_fetch s (some inst) = execute (record s { cpu = Exec.fetched s.cpu }) inst

unfoldable pub inst_cycle : State → Outcome
inst_cycle s = on_fetch s (load32 rom_size s.cpu.rom s.cpu.pc)
