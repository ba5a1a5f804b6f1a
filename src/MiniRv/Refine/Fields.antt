-- ===== src/MiniRv/Refine/Fields.antt =====
-- The fields of an encoded instruction come back out of the word.
use for_ysyx_self_store_by_h.Base.{
  ℕ, ◌*◌, ◌/◌, ◌%◌, ◌^◌, ◌<◌, ◌≡◌, arith, bits, bit_or, bit_or-shifted, sar32-shl32, sext32,
}
use for_ysyx_self_store_by_h.MiniRv.Exec.{sign_extend}
use for_ysyx_self_store_by_h.MiniRv.Spec.{i_type, s_type}

pub record IFields (opcode funct3 rd rs1 imm inst : ℕ) : Type 0 where
  pub at_opcode : bits inst 0 7 ≡ opcode
  pub at_rd : bits inst 7 5 ≡ rd
  pub at_funct3 : bits inst 12 3 ≡ funct3
  pub at_rs1 : bits inst 15 5 ≡ rs1
  pub at_imm : sign_extend (inst / 2 ^ 20) ≡ sext32 imm 12

pub i_type-IFields :
    (opcode funct3 rd rs1 imm : ℕ)
    → opcode < 2 ^ 7
    → funct3 < 8
    → rd < 32
    → rs1 < 32
    → imm < 2 ^ 12
    → IFields opcode funct3 rd rs1 imm (i_type opcode funct3 rd rs1 imm)
i_type-IFields opcode funct3 rd rs1 imm ho hf hd h1 hi = record {
  at_opcode = omega arith;
  at_rd = omega arith;
  at_funct3 = omega arith;
  at_rs1 = omega arith;
  at_imm =
      let e : i_type opcode funct3 rd rs1 imm / 2 ^ 20 ≡ imm = omega arith in
      rw e (sar32-shl32 imm hi);
}

pub record SFields (opcode funct3 rs1 rs2 imm inst : ℕ) : Type 0 where
  pub at_opcode : bits inst 0 7 ≡ opcode
  pub at_funct3 : bits inst 12 3 ≡ funct3
  pub at_rs1 : bits inst 15 5 ≡ rs1
  pub at_rs2 : bits inst 20 5 ≡ rs2
  pub at_imm : sign_extend (bit_or (bits inst 7 5) (inst / 2 ^ 25 * 2 ^ 5)) ≡ sext32 imm 12

pub s_type-SFields :
    (opcode funct3 rs1 rs2 imm : ℕ)
    → opcode < 2 ^ 7
    → funct3 < 8
    → rs1 < 32
    → rs2 < 32
    → imm < 2 ^ 12
    → SFields opcode funct3 rs1 rs2 imm (s_type opcode funct3 rs1 rs2 imm)
s_type-SFields opcode funct3 rs1 rs2 imm ho hf h1 h2 hi = record {
  at_opcode = omega arith;
  at_funct3 = omega arith;
  at_rs1 = omega arith;
  at_rs2 = omega arith;
  at_imm = rw joined (sar32-shl32 imm hi);
}
  where
    inst : ℕ
    inst = s_type opcode funct3 rs1 rs2 imm

    low : bits inst 7 5 ≡ imm % 2 ^ 5
    low = omega arith

    high : inst / 2 ^ 25 ≡ imm / 2 ^ 5
    high = omega arith

    joined : bit_or (bits inst 7 5) (inst / 2 ^ 25 * 2 ^ 5) ≡ imm
    joined = rw (low, high) (omega (arith, bit_or-shifted 5 (imm % 2 ^ 5) (imm / 2 ^ 5)))
