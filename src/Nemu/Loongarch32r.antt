-- ===== src/Nemu/Loongarch32r.antt =====
-- The loongarch32r ISA of NEMU, ysyx-workbench/nemu/src/isa/loongarch32r: decode_operand and decode_exec of
-- inst.c, and the start-up of init.c. The state has the fields of the one of riscv32, so the record
-- and the functions that only fetch, stop or report are the ones there.
pub mod Fields
pub mod Image
use for_ysyx_self_store_by_h.Base.{
  ℕ, ◌+◌, ◌-◌, ◌*◌, ◌^◌, List, [], ◌∷◌, if◌then◌else◌, bits, sext32, u32, update, codes, put_word,
}
use for_ysyx_self_store_by_h.Nemu.Result.{Result, ok, ◌>>=◌}
use for_ysyx_self_store_by_h.Nemu.State.{end}
use for_ysyx_self_store_by_h.Nemu.Memory.Mmio.{Config}
use for_ysyx_self_store_by_h.Nemu.Memory.Paddr.{vaddr_read, vaddr_write, guest_to_host}
use for_ysyx_self_store_by_h.Nemu.Riscv32.{
  Machine, Decode, instpat, inst_fetch, invalid_inst, reset_vector, set_gpr, set_nemu_state,
}

pub data Kind : Type 0 where
  type_2ri12 type_1ri20 type_n : Kind

-- What decode_operand fills in; no type fills in src2.
pub record Operands : Type 0 where
  pub rd : ℕ
  pub src1 : ℕ
  pub imm : ℕ

unfoldable pub decode_operand : (ℕ → ℕ) → ℕ → Kind → Operands
decode_operand gpr i kind =
    let rj = bits i 5 5 in
    let rd = bits i 0 5 in
    elim kind [
      | type_2ri12 ↦ record { rd = rd; src1 = gpr rj; imm = sext32 (bits i 10 12) 12 }
      | type_1ri20 ↦ record { rd = rd; src1 = gpr rj; imm = u32 (sext32 (bits i 5 20) 20 * 2 ^ 12) }
      | type_n ↦ record { rd = rd; src1 = 0; imm = 0 }
    ]

abbrev pub pcaddu12i_pattern : List ℕ
pcaddu12i_pattern = codes "0001110 ????? ????? ????? ????? ?????"

abbrev pub ld_w_pattern : List ℕ
ld_w_pattern = codes "0010100010 ???????????? ????? ?????"

abbrev pub st_w_pattern : List ℕ
st_w_pattern = codes "0010100110 ???????????? ????? ?????"

abbrev pub break_pattern : List ℕ
break_pattern = codes "0000 0000 0010 10100 ????? ????? ?????"

abbrev pub inv_pattern : List ℕ
inv_pattern = codes "????????????????? ????? ????? ?????"

-- The words of `img`, the built-in image.
abbrev pub put_image : (ℕ → ℕ) → ℕ → ℕ → ℕ
put_image a i =
    put_word
      (put_word
        (put_word (put_word (put_word a i 0x1c00000c) (i + 4) 0x29804180) (i + 8) 0x28804184)
        (i + 12) 0x002a0000)
      (i + 16) 0xdeadbeef

-- The names of the registers, reg.c; isa_reg_display is empty there.
abbrev pub regs : List (List ℕ)
regs =
    codes "$0"
    ∷ codes "ra"
    ∷ codes "tp"
    ∷ codes "sp"
    ∷ codes "a0"
    ∷ codes "a1"
    ∷ codes "a2"
    ∷ codes "a3"
    ∷ codes "a4"
    ∷ codes "a5"
    ∷ codes "a6"
    ∷ codes "a7"
    ∷ codes "t0"
    ∷ codes "t1"
    ∷ codes "t2"
    ∷ codes "t3"
    ∷ codes "t4"
    ∷ codes "t5"
    ∷ codes "t6"
    ∷ codes "t7"
    ∷ codes "t8"
    ∷ codes "rs"
    ∷ codes "fp"
    ∷ codes "s0"
    ∷ codes "s1"
    ∷ codes "s2"
    ∷ codes "s3"
    ∷ codes "s4"
    ∷ codes "s5"
    ∷ codes "s6"
    ∷ codes "s7"
    ∷ codes "s8"
    ∷ []

abbrev pub isa_reg_display : {W : Type 0} → Machine W → List (List ℕ × ℕ)
isa_reg_display m = []

module _ {W : Type 0} (c : Config) where
  unfoldable pub exec_pcaddu12i : Decode → Machine W → Result (Machine W)
  exec_pcaddu12i s m =
      let o = decode_operand m.gpr s.inst type_1ri20 in ok (set_gpr m o.rd (u32 (s.pc + o.imm)))

  unfoldable pub exec_ld_w : Decode → Machine W → Result (Machine W)
  exec_ld_w s m =
      let o = decode_operand m.gpr s.inst type_2ri12 in
      do
        (v, bus) ← vaddr_read c (u32 (o.src1 + o.imm)) 4 m.bus
        ok (set_gpr (record m { bus = bus }) o.rd v)

  unfoldable pub exec_st_w : Decode → Machine W → Result (Machine W)
  exec_st_w s m =
      let o = decode_operand m.gpr s.inst type_2ri12 in
      do
        bus ← vaddr_write c (u32 (o.src1 + o.imm)) 4 (m.gpr o.rd) m.bus
        ok (record m { bus = bus })

  unfoldable pub exec_pattern : Decode → Machine W → Result (Machine W)
  exec_pattern s m =
      if instpat pcaddu12i_pattern s.inst
      then exec_pcaddu12i s m
      else if instpat ld_w_pattern s.inst
      then exec_ld_w s m
      else if instpat st_w_pattern s.inst
      then exec_st_w s m
      else if instpat break_pattern s.inst
      then ok (set_nemu_state end s.pc (m.gpr 4) m)
      else if instpat inv_pattern s.inst
      then invalid_inst c s.pc m
      else ok m

  -- None of these instructions changes dnpc.
  unfoldable pub decode_exec : Decode → Machine W → Result (Decode × Machine W)
  decode_exec s m = do m' ← exec_pattern s m; ok (record s { dnpc = s.snpc }, set_gpr m' 0 0)

  unfoldable pub isa_exec_once : Decode → Machine W → Result (Decode × Machine W)
  isa_exec_once s m = do
    (inst, snpc, m') ← inst_fetch c s.snpc 4 m
    decode_exec (record s { inst = inst; snpc = snpc }) m'

  unfoldable pub restart : Machine W → Machine W
  restart m = record m { pc = reset_vector c; gpr = update m.gpr 0 0 }

  unfoldable pub init_isa : Machine W → Machine W
  init_isa m = restart (record m {
    bus = record m.bus { pmem = put_image m.bus.pmem (guest_to_host c (reset_vector c)) };
  })
