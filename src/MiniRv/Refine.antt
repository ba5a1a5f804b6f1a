-- ===== src/MiniRv/Refine.antt =====
-- inst_cycle does what the instruction set says, instruction by instruction.
mod Fields
use Fields.{IFields, i_type-IFields, SFields, s_type-SFields}
use for_ysyx_self_store_by_h.Base.{
  ℕ, ◌+◌, ◌*◌, ◌/◌, ◌%◌, ◌^◌, ◌<◌, ◌≡◌, refl, ap, fun_ext, ◌∙◌, Option, none, some, arith, ◌==◌,
  if◌then◌else◌, u32, bits, sext32, load8, load32, store8, store32,
}
use for_ysyx_self_store_by_h.MiniRv.Machine.{mem_size, State, Outcome, running, exited, fault}
use for_ysyx_self_store_by_h.MiniRv.Exec.{
  set_reg, fetched, put_loaded, put_stored, execute, exec_op, exec_op_imm, exec_lui, exec_jalr,
  exec_load, exec_store, exec_system, on_fetch, inst_cycle,
}
use for_ysyx_self_store_by_h.MiniRv.Spec.{
  Instr, add, addi, jalr, lw, lbu, lui, sw, sb, ebreak, ecall, Fits, i_type, s_type, encode, read,
  write_back, next_pc, offset_by, loaded, stored, step, view,
}

-- A write to a register, seen from outside.
view-set_reg :
    (s : State) (rd v next : ℕ)
    → view (running (set_reg (record s { regs = read s; pc = next }) rd v))
      ≡ running (write_back s rd v next)
view-set_reg s rd v next =
    ap (λ (f : ℕ → ℕ). running (record s { regs = f; pc = next })) (fun_ext (λ r. ground arith))

view-put_loaded :
    (s : State) (rd : ℕ) (o : Option ℕ) → view (put_loaded (fetched s) rd o) ≡ loaded s rd o
view-put_loaded s rd none = refl
view-put_loaded s rd (some v) = view-set_reg s rd v (next_pc s)

view-put_stored : (s : State) (o : Option (ℕ → ℕ)) → view (put_stored (fetched s) o) ≡ stored s o
view-put_stored s none = refl
view-put_stored s (some m) =
    ap (λ (f : ℕ → ℕ). running (record s { regs = f; memory = m; pc = next_pc s }))
      (fun_ext (λ r. ground arith))

module _ (s : State) where
  op_imm-step :
      (rd rs1 imm inst : ℕ)
      → IFields 0x13 0 rd rs1 imm inst
      → view (execute (fetched s) inst) ≡ step (addi rd rs1 imm) s
  unfolding execute exec_op_imm
  op_imm-step rd rs1 imm inst f =
      rw (f.at_opcode, f.at_funct3, f.at_rd, f.at_rs1, f.at_imm)
        (view-set_reg s rd (offset_by s rs1 imm) (next_pc s))

  jalr-step :
      (rd rs1 imm inst : ℕ)
      → IFields 0x67 0 rd rs1 imm inst
      → view (execute (fetched s) inst) ≡ step (jalr rd rs1 imm) s
  unfolding execute exec_jalr
  jalr-step rd rs1 imm inst f =
      rw (f.at_opcode, f.at_funct3, f.at_rd, f.at_rs1, f.at_imm)
        (view-set_reg s rd (next_pc s) (offset_by s rs1 imm / 2 * 2))

  lw-step :
      (rd rs1 imm inst : ℕ)
      → IFields 0x03 2 rd rs1 imm inst
      → view (execute (fetched s) inst) ≡ step (lw rd rs1 imm) s
  unfolding execute exec_load
  lw-step rd rs1 imm inst f =
      rw (f.at_opcode, f.at_funct3, f.at_rd, f.at_rs1, f.at_imm)
        (view-put_loaded s rd (load32 mem_size s.memory (offset_by s rs1 imm)))

  lbu-step :
      (rd rs1 imm inst : ℕ)
      → IFields 0x03 4 rd rs1 imm inst
      → view (execute (fetched s) inst) ≡ step (lbu rd rs1 imm) s
  unfolding execute exec_load
  lbu-step rd rs1 imm inst f =
      rw (f.at_opcode, f.at_funct3, f.at_rd, f.at_rs1, f.at_imm)
        (view-put_loaded s rd (load8 mem_size s.memory (offset_by s rs1 imm)))

  sw-step :
      (rs2 rs1 imm inst : ℕ)
      → SFields 0x23 2 rs1 rs2 imm inst
      → view (execute (fetched s) inst) ≡ step (sw rs2 rs1 imm) s
  unfolding execute exec_store
  sw-step rs2 rs1 imm inst f =
      rw (f.at_opcode, f.at_funct3, f.at_rs1, f.at_rs2, f.at_imm)
        (view-put_stored s (store32 mem_size s.memory (offset_by s rs1 imm) (read s rs2)))

  sb-step :
      (rs2 rs1 imm inst : ℕ)
      → SFields 0x23 0 rs1 rs2 imm inst
      → view (execute (fetched s) inst) ≡ step (sb rs2 rs1 imm) s
  unfolding execute exec_store
  sb-step rs2 rs1 imm inst f =
      rw (f.at_opcode, f.at_funct3, f.at_rs1, f.at_rs2, f.at_imm)
        (view-put_stored s (store8 mem_size s.memory (offset_by s rs1 imm) (read s rs2)))

  add-step :
      (rd rs1 rs2 : ℕ)
      → rd < 32
      → rs1 < 32
      → rs2 < 32
      → view (execute (fetched s) (encode (add rd rs1 rs2))) ≡ step (add rd rs1 rs2) s
  unfolding execute exec_op
  add-step rd rs1 rs2 hd h1 h2 =
      let inst = encode (add rd rs1 rs2) in
      let at_opcode : bits inst 0 7 ≡ 0x33 = omega arith in
      let at_rd : bits inst 7 5 ≡ rd = omega arith in
      let at_funct3 : bits inst 12 3 ≡ 0 = omega arith in
      let at_rs1 : bits inst 15 5 ≡ rs1 = omega arith in
      let at_rs2 : bits inst 20 5 ≡ rs2 = omega arith in
      let at_funct7 : bits inst 25 7 ≡ 0 = omega arith in
      rw (at_opcode, at_funct3, at_funct7, at_rd, at_rs1, at_rs2)
        (view-set_reg s rd (u32 (read s rs1 + read s rs2)) (next_pc s))

  lui-step :
      (rd imm : ℕ)
      → rd < 32
      → imm < 2 ^ 20
      → view (execute (fetched s) (encode (lui rd imm))) ≡ step (lui rd imm) s
  unfolding execute exec_lui
  lui-step rd imm hd hi =
      let inst = encode (lui rd imm) in
      let at_opcode : bits inst 0 7 ≡ 0x37 = omega arith in
      let at_rd : bits inst 7 5 ≡ rd = omega arith in
      let at_imm : inst / 2 ^ 12 ≡ imm = omega arith in
      rw (at_opcode, at_rd, at_imm) (view-set_reg s rd (imm * 2 ^ 12) (next_pc s))

  ebreak-step : view (execute (fetched s) (encode ebreak)) ≡ step ebreak s
  unfolding execute exec_system
  ebreak-step = ground arith

  ecall-step : view (execute (fetched s) (encode ecall)) ≡ step ecall s
  unfolding execute exec_system
  ecall-step = refl

  -- Every instruction of the set, executed after its fetch, does what the set says.
  pub execute-step : (i : Instr) → Fits i → view (execute (fetched s) (encode i)) ≡ step i s
  execute-step (add rd rs1 rs2) f = add-step rd rs1 rs2 f.0 f.1 f.2
  execute-step (addi rd rs1 imm) f =
      op_imm-step rd rs1 imm _
        (i_type-IFields 0x13 0 rd rs1 imm (omega arith) (omega arith) f.0 f.1 f.2)
  execute-step (jalr rd rs1 imm) f =
      jalr-step rd rs1 imm _
        (i_type-IFields 0x67 0 rd rs1 imm (omega arith) (omega arith) f.0 f.1 f.2)
  execute-step (lw rd rs1 imm) f =
      lw-step rd rs1 imm _
        (i_type-IFields 0x03 2 rd rs1 imm (omega arith) (omega arith) f.0 f.1 f.2)
  execute-step (lbu rd rs1 imm) f =
      lbu-step rd rs1 imm _
        (i_type-IFields 0x03 4 rd rs1 imm (omega arith) (omega arith) f.0 f.1 f.2)
  execute-step (lui rd imm) f = lui-step rd imm f.0 f.1
  execute-step (sw rs2 rs1 imm) f =
      sw-step rs2 rs1 imm _
        (s_type-SFields 0x23 2 rs1 rs2 imm (omega arith) (omega arith) f.1 f.0 f.2)
  execute-step (sb rs2 rs1 imm) f =
      sb-step rs2 rs1 imm _
        (s_type-SFields 0x23 0 rs1 rs2 imm (omega arith) (omega arith) f.1 f.0 f.2)
  execute-step ebreak f = ebreak-step
  execute-step ecall f = ecall-step

-- If the word at PC is the encoding of an instruction whose operands fit their fields, then one
-- inst_cycle is one step of that instruction, register 0 aside, which reads as 0.
pub inst_cycle-step :
    (s : State) (i : Instr)
    → Fits i
    → load32 mem_size s.rom s.pc ≡ some (encode i)
    → view (inst_cycle s) ≡ step i s
unfolding inst_cycle
inst_cycle-step s i f h = ap (λ o. view (on_fetch s o)) h ∙ execute-step s i f
