-- ===== src/MiniRv/Spec.antt =====
-- The instruction set that the minirv emulator is written for, described by itself: abstract
-- instructions, their encodings, and what each does to a machine whose register 0 is always 0.
use for_ysyx_self_store_by_h.Base.{
  ℕ, ◌+◌, ◌*◌, ◌/◌, ◌%◌, ◌^◌, ◌<◌, Option, none, some, if◌then◌else◌, ◌==◌, u32, sext32, load8,
  load32, store8, store32,
}
use for_ysyx_self_store_by_h.MiniRv.Machine.{
  mem_size, State, hit_good_trap, hit_bad_trap, ecall_called, Outcome, running, exited, fault,
}

-- An immediate is its field: 12 bits, or 20 for lui.
pub data Instr : Type 0 where
  add : (rd rs1 rs2 : ℕ) → Instr
  addi jalr lw lbu : (rd rs1 imm : ℕ) → Instr
  lui : (rd imm : ℕ) → Instr
  sw sb : (rs2 rs1 imm : ℕ) → Instr
  ebreak ecall : Instr

-- The operands fit their fields.
abbrev pub Fits : Instr → Type 0
Fits (add rd rs1 rs2) = (rd < 32) × (rs1 < 32) × (rs2 < 32)
Fits (addi rd rs1 imm) = (rd < 32) × (rs1 < 32) × (imm < 2 ^ 12)
Fits (jalr rd rs1 imm) = (rd < 32) × (rs1 < 32) × (imm < 2 ^ 12)
Fits (lw rd rs1 imm) = (rd < 32) × (rs1 < 32) × (imm < 2 ^ 12)
Fits (lbu rd rs1 imm) = (rd < 32) × (rs1 < 32) × (imm < 2 ^ 12)
Fits (lui rd imm) = (rd < 32) × (imm < 2 ^ 20)
Fits (sw rs2 rs1 imm) = (rs2 < 32) × (rs1 < 32) × (imm < 2 ^ 12)
Fits (sb rs2 rs1 imm) = (rs2 < 32) × (rs1 < 32) × (imm < 2 ^ 12)
Fits ebreak = Unit
Fits ecall = Unit

-- The fields of an I-type word and of an S-type word.
abbrev pub i_type : ℕ → ℕ → ℕ → ℕ → ℕ → ℕ
i_type opcode funct3 rd rs1 imm =
    opcode + rd * 2 ^ 7 + funct3 * 2 ^ 12 + rs1 * 2 ^ 15 + imm * 2 ^ 20

abbrev pub s_type : ℕ → ℕ → ℕ → ℕ → ℕ → ℕ
s_type opcode funct3 rs1 rs2 imm =
    opcode
    + imm % 2 ^ 5 * 2 ^ 7
    + funct3 * 2 ^ 12
    + rs1 * 2 ^ 15
    + rs2 * 2 ^ 20
    + imm / 2 ^ 5 * 2 ^ 25

abbrev pub encode : Instr → ℕ
encode (add rd rs1 rs2) = 0x33 + rd * 2 ^ 7 + rs1 * 2 ^ 15 + rs2 * 2 ^ 20
encode (addi rd rs1 imm) = i_type 0x13 0 rd rs1 imm
encode (jalr rd rs1 imm) = i_type 0x67 0 rd rs1 imm
encode (lw rd rs1 imm) = i_type 0x03 2 rd rs1 imm
encode (lbu rd rs1 imm) = i_type 0x03 4 rd rs1 imm
encode (lui rd imm) = 0x37 + rd * 2 ^ 7 + imm * 2 ^ 12
encode (sw rs2 rs1 imm) = s_type 0x23 2 rs1 rs2 imm
encode (sb rs2 rs1 imm) = s_type 0x23 0 rs1 rs2 imm
encode ebreak = 0x00100073
encode ecall = 0x00000073

-- Register 0 always reads as 0.
abbrev pub read : State → ℕ → ℕ
read s r = if 0 == r then 0 else s.regs r

-- The state after an instruction that puts `v` into `rd` and goes on at `next`.
abbrev pub write_back : State → ℕ → ℕ → ℕ → State
write_back s rd v next = record s {
  regs = λ r. if 0 == r then 0 else if rd == r then v else s.regs r;
  pc = next;
}

abbrev pub next_pc : State → ℕ
next_pc s = u32 (s.pc + 4)

-- The address or the sum of a register and a sign-extended field.
abbrev pub offset_by : State → ℕ → ℕ → ℕ
offset_by s r imm = u32 (read s r + sext32 imm 12)

abbrev pub loaded : State → ℕ → Option ℕ → Outcome
loaded s rd none = fault
loaded s rd (some v) = running (write_back s rd v (next_pc s))

abbrev pub stored : State → Option (ℕ → ℕ) → Outcome
stored s none = fault
stored s (some m) = running (record s { regs = read s; memory = m; pc = next_pc s })

-- The meaning of an instruction, on a machine that keeps register 0 at 0.
abbrev pub step : Instr → State → Outcome
step (add rd rs1 rs2) s = running (write_back s rd (u32 (read s rs1 + read s rs2)) (next_pc s))
step (addi rd rs1 imm) s = running (write_back s rd (offset_by s rs1 imm) (next_pc s))
step (jalr rd rs1 imm) s = running (write_back s rd (next_pc s) (offset_by s rs1 imm / 2 * 2))
step (lui rd imm) s = running (write_back s rd (imm * 2 ^ 12) (next_pc s))
step (lw rd rs1 imm) s = loaded s rd (load32 mem_size s.memory (offset_by s rs1 imm))
step (lbu rd rs1 imm) s = loaded s rd (load8 mem_size s.memory (offset_by s rs1 imm))
step (sw rs2 rs1 imm) s = stored s (store32 mem_size s.memory (offset_by s rs1 imm) (read s rs2))
step (sb rs2 rs1 imm) s = stored s (store8 mem_size s.memory (offset_by s rs1 imm) (read s rs2))
step ebreak s = exited 0 (if read s 10 == 0 then hit_good_trap else hit_bad_trap)
step ecall s = exited 0 ecall_called

-- What can be seen of an outcome: register 0 is never read before it is cleared.
abbrev pub view : Outcome → Outcome
view (running s) = running (record s { regs = read s })
view (exited code m) = exited code m
view fault = fault
