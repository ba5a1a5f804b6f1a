-- ===== src/Nemu/X86/Decode.antt =====
-- How ysyx-workbench/nemu/src/isa/x86/inst.c reads an instruction byte by byte: the ModR/M and SIB
-- bytes, displacements and immediates. With CONFIG_ITRACE, the default, an instruction has less than
-- 16 bytes.
use for_ysyx_self_store_by_h.Base.{
  ℕ, Bool, ◌+◌, ◌-◌, ◌*◌, ◌/◌, ◌%◌, ◌^◌, not, Option, none, some, if◌then◌else◌, ltb, ◌==◌, sext32,
  u32,
}
use for_ysyx_self_store_by_h.Nemu.Result.{Result, ok, assertion, check, ◌>>=◌, ◌>>◌}
use for_ysyx_self_store_by_h.Nemu.Memory.Mmio.{Config}
use for_ysyx_self_store_by_h.Nemu.Memory.Paddr.{vaddr_ifetch}
use for_ysyx_self_store_by_h.Nemu.X86.{X86, reg_read}

-- The Decode structure; the bytes that are kept for the trace are left out.
pub record Decode : Type 0 where
  pub pc : ℕ
  pub snpc : ℕ
  pub dnpc : ℕ

-- R_EAX, R_ESP and R_EBP.
abbrev pub r_eax : ℕ
r_eax = 0

abbrev pub r_esp : ℕ
r_esp = 4

abbrev pub r_ebp : ℕ
r_ebp = 5

-- ModR_M and SIB, from the byte; `mode` is the field mod.
pub record ModRm : Type 0 where
  pub r_m : ℕ
  pub reg : ℕ
  pub mode : ℕ

abbrev pub modrm_of : ℕ → ModRm
modrm_of val = record { r_m = val % 8; reg = val / 8 % 8; mode = val / 64 % 4 }

pub record Sib : Type 0 where
  pub base : ℕ
  pub index : ℕ
  pub ss : ℕ

abbrev pub sib_of : ℕ → Sib
sib_of val = record { base = val % 8; index = val / 8 % 8; ss = val / 64 % 4 }

-- A base register, an index register and a scale; `none` is -1.
pub record Parts : Type 0 where
  pub base_reg : Option ℕ
  pub index_reg : Option ℕ
  pub scale : ℕ

-- What the types of operands fill in: `rd` and `rs` are registers, or `none` for the memory at `addr`.
pub record Operands : Type 0 where
  pub rd : Option ℕ
  pub rs : Option ℕ
  pub gp_idx : ℕ
  pub src1 : ℕ
  pub addr : ℕ
  pub imm : ℕ

abbrev pub no_operands : Operands
no_operands = record { rd = some 0; rs = some 0; gp_idx = 0; src1 = 0; addr = 0; imm = 0 }

pub data Kind : Type 0 where
  type_i2r type_g2e type_e2g type_i2e type_o2a type_a2o type_n : Kind

-- Without a base, register 5 stands for a displacement of four bytes.
abbrev pub is_ebp : Option ℕ → Bool
is_ebp none = Bool.false
is_ebp (some r) = r == r_ebp

abbrev pub base_at : ℕ → Option ℕ → Option ℕ
base_at mode base_reg = if mode == 0 then if is_ebp base_reg then none else base_reg else base_reg

abbrev pub disp_size_at : ℕ → Option ℕ → ℕ
disp_size_at mode base_reg =
    if mode == 0 then if is_ebp base_reg then 4 else 0 else if mode == 1 then 1 else 4

module _ {W : Type 0} (c : Config) where
  unfoldable pub x86_inst_fetch : ℕ → Decode → X86 W → Result (ℕ × Decode × X86 W)
  x86_inst_fetch len s m = do
    (v, bus) ← vaddr_ifetch c s.snpc len m.bus
    let snpc = u32 (s.snpc + len)
    check (ltb (u32 (snpc + 2 ^ 32 - s.pc)) 16) assertion
    ok (v, record s { snpc = snpc }, record m { bus = bus })

  -- The registers that an address is made of.
  abbrev pub address_parts : ModRm → Decode → X86 W → Result (Parts × Decode × X86 W)
  address_parts modrm s m =
      if modrm.r_m == r_esp
      then (do
        (val, s', m') ← x86_inst_fetch 1 s m
        let sib = sib_of val
        ok (
          record {
            base_reg = some sib.base;
            index_reg = if sib.index == r_esp then none else some sib.index;
            scale = sib.ss;
          },
          s',
          m',
        ))
      else ok (record { base_reg = some modrm.r_m; index_reg = none; scale = 0 }, s, m)

  abbrev pub fetch_disp : ℕ → Decode → X86 W → Result (ℕ × Decode × X86 W)
  fetch_disp disp_size s m = if disp_size == 0 then ok (0, s, m) else (do
    (disp, s', m') ← x86_inst_fetch disp_size s m
    ok (if disp_size == 1 then sext32 disp 8 else disp, s', m'))

  abbrev pub reg_or_zero : Option ℕ → X86 W → Result ℕ
  reg_or_zero none m = ok 0
  reg_or_zero (some r) m = reg_read r 4 m

  unfoldable pub load_addr : ModRm → Decode → X86 W → Result (ℕ × Decode × X86 W)
  load_addr modrm s m = do
    check (not (modrm.mode == 3)) assertion
    (parts, s1, m1) ← address_parts modrm s m
    let base_reg = base_at modrm.mode parts.base_reg
    (disp, s2, m2) ← fetch_disp (disp_size_at modrm.mode parts.base_reg) s1 m1
    base ← reg_or_zero base_reg m2
    index ← reg_or_zero parts.index_reg m2
    ok (u32 (disp + base + index * 2 ^ parts.scale), s2, m2)

  abbrev pub choose_rm : ModRm → Decode → X86 W → Result ((Option ℕ × ℕ × ℕ) × Decode × X86 W)
  choose_rm modrm s m =
      if modrm.mode == 3
      then ok ((some modrm.r_m, 0, modrm.reg), s, m)
      else (do (addr, s', m') ← load_addr modrm s m; ok ((none, addr, modrm.reg), s', m'))

  -- decode_rm: the register or `none`, the address, and the register field.
  unfoldable pub decode_rm : Decode → X86 W → Result ((Option ℕ × ℕ × ℕ) × Decode × X86 W)
  decode_rm s m = do (val, s1, m1) ← x86_inst_fetch 1 s m; choose_rm (modrm_of val) s1 m1

  -- decode_operand; `w` is the width of the operands.
  unfoldable pub decode_operand : ℕ → ℕ → Kind → Decode → X86 W → Result (Operands × Decode × X86 W)
  decode_operand opcode w type_i2r s m = do
    (imm, s1, m1) ← x86_inst_fetch w s m
    ok (record no_operands { rd = some (opcode % 8); imm = imm }, s1, m1)
  decode_operand opcode w type_g2e s m = do
    ((rm, addr, reg), s1, m1) ← decode_rm s m
    src1 ← reg_read reg w m1
    ok (record no_operands { rd = rm; rs = some reg; addr = addr; src1 = src1 }, s1, m1)
  decode_operand opcode w type_e2g s m = do
    ((rm, addr, reg), s1, m1) ← decode_rm s m
    ok (record no_operands { rd = some reg; rs = rm; addr = addr }, s1, m1)
  decode_operand opcode w type_i2e s m = do
    ((rm, addr, reg), s1, m1) ← decode_rm s m
    (imm, s2, m2) ← x86_inst_fetch w s1 m1
    ok (record no_operands { rd = rm; addr = addr; gp_idx = reg; imm = imm }, s2, m2)
  decode_operand opcode w type_o2a s m = do
    (addr, s1, m1) ← x86_inst_fetch 4 s m
    ok (record no_operands { rd = some r_eax; addr = addr }, s1, m1)
  decode_operand opcode w type_a2o s m = do
    (addr, s1, m1) ← x86_inst_fetch 4 s m
    ok (record no_operands { rs = some r_eax; addr = addr }, s1, m1)
  decode_operand opcode w type_n s m = ok (no_operands, s, m)
