-- ===== src/Nemu/Mips32.antt =====
-- The mips32 ISA of NEMU, ysyx-workbench/nemu/src/isa/mips32: decode_operand and decode_exec of
-- inst.c, and the start-up of init.c. The state has the fields of the one of riscv32, so the record
-- and the functions that only fetch, stop or report are the ones there.
pub mod Fields
pub mod Image
use for_ysyx_self_store_by_h.Base.{
  ℕ, ◌+◌, ◌-◌, ◌*◌, ◌^◌, List, [], ◌∷◌, if◌then◌else◌, bits, sext32, u32, update, codes, put_word,
}
use for_ysyx_self_store_by_h.Nemu.Result.{Result, ok, ◌>>=◌}
use for_ysyx_self_store_by_h.Nemu.State.{end}
use for_ysyx_self_store_by_h.Nemu.Memory.Mmio.{Config}
use for_ysyx_self_store_by_h.Nemu.Memory.Paddr.{vaddr_read, vaddr_write, guest_to_host}
use for_ysyx_self_store_by_h.Nemu.Riscv32.{
  Machine, Decode, instpat, inst_fetch, invalid_inst, reset_vector, set_gpr, set_nemu_state,
}

pub data Kind : Type 0 where
  type_i type_u type_n : Kind

-- What decode_operand fills in; no type fills in src2.
pub record Operands : Type 0 where
  pub rd : ℕ
  pub src1 : ℕ
  pub imm : ℕ

unfoldable pub decode_operand : (ℕ → ℕ) → ℕ → Kind → Operands
decode_operand gpr i kind =
    let rt = bits i 16 5 in
    let rs = bits i 21 5 in
    elim kind [
      | type_i ↦ record { rd = rt; src1 = gpr rs; imm = sext32 (bits i 0 16) 16 }
      | type_u ↦ record { rd = rt; src1 = gpr rs; imm = bits i 0 16 }
      | type_n ↦ record { rd = bits i 11 5; src1 = 0; imm = 0 }
    ]

abbrev pub lui_pattern : List ℕ
lui_pattern = codes "001111 ????? ????? ????? ????? ??????"

abbrev pub lw_pattern : List ℕ
lw_pattern = codes "100011 ????? ????? ????? ????? ??????"

abbrev pub sw_pattern : List ℕ
sw_pattern = codes "101011 ????? ????? ????? ????? ??????"

abbrev pub sdbbp_pattern : List ℕ
sdbbp_pattern = codes "011100 ????? ????? ????? ????? 111111"

abbrev pub inv_pattern : List ℕ
inv_pattern = codes "?????? ????? ????? ????? ????? ??????"

-- The words of `img`, the built-in image.
abbrev pub put_image : (ℕ → ℕ) → ℕ → ℕ → ℕ
put_image a i =
    put_word (put_word (put_word (put_word a i 0x3c048000) (i + 4) 0xac800000) (i + 8) 0x8c820000)
      (i + 12) 0x7000003f

-- The names of the registers, reg.c; isa_reg_display is empty there.
abbrev pub regs : List (List ℕ)
regs =
    codes "$0"
    ∷ codes "at"
    ∷ codes "v0"
    ∷ codes "v1"
    ∷ codes "a0"
    ∷ codes "a1"
    ∷ codes "a2"
    ∷ codes "a3"
    ∷ codes "t0"
    ∷ codes "t1"
    ∷ codes "t2"
    ∷ codes "t3"
    ∷ codes "t4"
    ∷ codes "t5"
    ∷ codes "t6"
    ∷ codes "t7"
    ∷ codes "s0"
    ∷ codes "s1"
    ∷ codes "s2"
    ∷ codes "s3"
    ∷ codes "s4"
    ∷ codes "s5"
    ∷ codes "s6"
    ∷ codes "s7"
    ∷ codes "t8"
    ∷ codes "t9"
    ∷ codes "k0"
    ∷ codes "k1"
    ∷ codes "gp"
    ∷ codes "sp"
    ∷ codes "s8"
    ∷ codes "ra"
    ∷ []

abbrev pub isa_reg_display : {W : Type 0} → Machine W → List (List ℕ × ℕ)
isa_reg_display m = []

module _ {W : Type 0} (c : Config) where
  unfoldable pub exec_lui : Decode → Machine W → Result (Machine W)
  exec_lui s m =
      let o = decode_operand m.gpr s.inst type_u in ok (set_gpr m o.rd (u32 (o.imm * 2 ^ 16)))

  unfoldable pub exec_lw : Decode → Machine W → Result (Machine W)
  exec_lw s m =
      let o = decode_operand m.gpr s.inst type_i in
      do
        (v, bus) ← vaddr_read c (u32 (o.src1 + o.imm)) 4 m.bus
        ok (set_gpr (record m { bus = bus }) o.rd v)

  unfoldable pub exec_sw : Decode → Machine W → Result (Machine W)
  exec_sw s m =
      let o = decode_operand m.gpr s.inst type_i in
      do
        bus ← vaddr_write c (u32 (o.src1 + o.imm)) 4 (m.gpr o.rd) m.bus
        ok (record m { bus = bus })

  unfoldable pub exec_pattern : Decode → Machine W → Result (Machine W)
  exec_pattern s m =
      if instpat lui_pattern s.inst
      then exec_lui s m
      else if instpat lw_pattern s.inst
      then exec_lw s m
      else if instpat sw_pattern s.inst
      then exec_sw s m
      else if instpat sdbbp_pattern s.inst
      then ok (set_nemu_state end s.pc (m.gpr 2) m)
      else if instpat inv_pattern s.inst
      then invalid_inst c s.pc m
      else ok m

  -- None of these instructions changes dnpc.
  unfoldable pub decode_exec : Decode → Machine W → Result (Decode × Machine W)
  decode_exec s m = do m' ← exec_pattern s m; ok (record s { dnpc = s.snpc }, set_gpr m' 0 0)

  unfoldable pub isa_exec_once : Decode → Machine W → Result (Decode × Machine W)
  isa_exec_once s m = do
    (inst, snpc, m') ← inst_fetch c s.snpc 4 m
    decode_exec (record s { inst = inst; snpc = snpc }) m'

  unfoldable pub restart : Machine W → Machine W
  restart m = record m { pc = reset_vector c; gpr = update m.gpr 0 0 }

  unfoldable pub init_isa : Machine W → Machine W
  init_isa m = restart (record m {
    bus = record m.bus { pmem = put_image m.bus.pmem (guest_to_host c (reset_vector c)) };
  })
