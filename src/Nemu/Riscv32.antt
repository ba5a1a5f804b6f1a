-- ===== src/Nemu/Riscv32.antt =====
-- The riscv32 ISA of NEMU, ysyx-workbench/nemu/src/isa/riscv32: decode_operand and decode_exec of
-- inst.c, and the start-up of init.c; with inst_fetch of include/cpu/ifetch.h and the functions
-- that stop the emulator, of src/engine/interpreter/hostcall.c.
pub mod Dispatch
pub mod Patterns
pub mod Effects
pub mod Registers
use for_ysyx_self_store_by_h.Base.{
  ℕ, ◌+◌, ◌-◌, ◌*◌, ◌^◌, Bool, false, List, if◌then◌else◌, bits, bit_or, sext32, u32, update, codes,
  put_word,
}
use for_ysyx_self_store_by_h.Nemu.Result.{Result, ok, ◌>>=◌}
use for_ysyx_self_store_by_h.Nemu.State.{Mode, end, abort, NemuState}
use for_ysyx_self_store_by_h.Nemu.Pattern.{Decoded, decoded, pattern_decode, test}
use for_ysyx_self_store_by_h.Nemu.Memory.Mmio.{Config}
use for_ysyx_self_store_by_h.Nemu.Memory.Paddr.{
  Bus, vaddr_read, vaddr_write, vaddr_ifetch, guest_to_host,
}

-- The globals cpu, nemu_state and the memory side. `gpr` has 32 entries, indexed by 5-bit fields.
pub record Machine (W : Type 0) : Type 0 where
  pub gpr : ℕ → ℕ
  pub pc : ℕ
  pub nemu : NemuState
  pub bus : Bus W

-- The Decode structure.
pub record Decode : Type 0 where
  pub pc : ℕ
  pub snpc : ℕ
  pub dnpc : ℕ
  pub inst : ℕ

pub data Kind : Type 0 where
  type_i type_u type_s type_n : Kind

-- What decode_operand fills in; what a type leaves alone is 0.
pub record Operands : Type 0 where
  pub rd : ℕ
  pub src1 : ℕ
  pub src2 : ℕ
  pub imm : ℕ

-- `SEXT(x, len)` as a uint64_t, cut to a word: sign extension to 32 bits.
unfoldable pub decode_operand : (ℕ → ℕ) → ℕ → Kind → Operands
decode_operand gpr i kind =
    let rs1 = bits i 15 5 in
    let rs2 = bits i 20 5 in
    let rd = bits i 7 5 in
    elim kind [
      | type_i ↦ record { rd = rd; src1 = gpr rs1; src2 = 0; imm = sext32 (bits i 20 12) 12 }
      | type_u ↦ record {
        rd = rd;
        src1 = 0;
        src2 = 0;
        imm = u32 (sext32 (bits i 12 20) 20 * 2 ^ 12);
      }
      | type_s ↦ record {
        rd = rd;
        src1 = gpr rs1;
        src2 = gpr rs2;
        imm = bit_or (u32 (sext32 (bits i 25 7) 7 * 2 ^ 5)) (bits i 7 5);
      }
      | type_n ↦ record { rd = rd; src1 = 0; src2 = 0; imm = 0 }
    ]

-- INSTPAT: whether the instruction fits the pattern. A bad pattern would abort the emulator, and no
-- pattern below is one.
abbrev pub fits : Decoded → ℕ → Bool
fits (decoded b) inst = test b inst
fits _ inst = false

abbrev pub instpat : List ℕ → ℕ → Bool
instpat pattern inst = fits (pattern_decode pattern) inst

abbrev pub auipc_pattern : List ℕ
auipc_pattern = codes "??????? ????? ????? ??? ????? 00101 11"

abbrev pub lbu_pattern : List ℕ
lbu_pattern = codes "??????? ????? ????? 100 ????? 00000 11"

abbrev pub sb_pattern : List ℕ
sb_pattern = codes "??????? ????? ????? 000 ????? 01000 11"

abbrev pub ebreak_pattern : List ℕ
ebreak_pattern = codes "0000000 00001 00000 000 00000 11100 11"

abbrev pub inv_pattern : List ℕ
inv_pattern = codes "??????? ????? ????? ??? ????? ????? ??"

abbrev pub reset_vector : Config → ℕ
reset_vector c = c.mbase + c.pc_reset_offset

-- The words of `img`, the built-in image.
abbrev pub put_image : (ℕ → ℕ) → ℕ → ℕ → ℕ
put_image a i =
    put_word
      (put_word
        (put_word (put_word (put_word a i 0x00000297) (i + 4) 0x00028823) (i + 8) 0x0102c503)
        (i + 12) 0x00100073)
      (i + 16) 0xdeadbeef

abbrev pub set_gpr : {W : Type 0} → Machine W → ℕ → ℕ → Machine W
set_gpr m rd v = record m { gpr = update m.gpr rd v }

unfoldable pub set_nemu_state : {W : Type 0} → Mode → ℕ → ℕ → Machine W → Machine W
set_nemu_state state pc halt_ret m = record m {
  nemu = record { state = state; halt_pc = pc; halt_ret = halt_ret };
}

module _ {W : Type 0} (c : Config) where
  -- inst_fetch: the word at `pc`, and `pc` behind it.
  abbrev pub inst_fetch : ℕ → ℕ → Machine W → Result (ℕ × ℕ × Machine W)
  inst_fetch pc len m = do
    (inst, bus) ← vaddr_ifetch c pc len m.bus
    ok (inst, u32 (pc + len), record m { bus = bus })

  -- invalid_inst fetches two words for its report. The halt_ret of -1 is a uint32_t.
  unfoldable pub invalid_inst : ℕ → Machine W → Result (Machine W)
  invalid_inst thispc m = do
    (w0, pc1, m1) ← inst_fetch thispc 4 m
    (w1, pc2, m2) ← inst_fetch pc1 4 m1
    ok (set_nemu_state abort thispc (2 ^ 32 - 1) m2)

  -- The bodies of the instructions.
  unfoldable pub exec_auipc : Decode → Machine W → Result (Machine W)
  exec_auipc s m =
      let o = decode_operand m.gpr s.inst type_u in ok (set_gpr m o.rd (u32 (s.pc + o.imm)))

  unfoldable pub exec_lbu : Decode → Machine W → Result (Machine W)
  exec_lbu s m =
      let o = decode_operand m.gpr s.inst type_i in
      do
        (v, bus) ← vaddr_read c (u32 (o.src1 + o.imm)) 1 m.bus
        ok (set_gpr (record m { bus = bus }) o.rd v)

  unfoldable pub exec_sb : Decode → Machine W → Result (Machine W)
  exec_sb s m =
      let o = decode_operand m.gpr s.inst type_s in
      do bus ← vaddr_write c (u32 (o.src1 + o.imm)) 1 o.src2 m.bus; ok (record m { bus = bus })

  -- The list of patterns, the first that fits being executed.
  unfoldable pub exec_pattern : Decode → Machine W → Result (Machine W)
  exec_pattern s m =
      if instpat auipc_pattern s.inst
      then exec_auipc s m
      else if instpat lbu_pattern s.inst
      then exec_lbu s m
      else if instpat sb_pattern s.inst
      then exec_sb s m
      else if instpat ebreak_pattern s.inst
      then ok (set_nemu_state end s.pc (m.gpr 10) m)
      else if instpat inv_pattern s.inst
      then invalid_inst s.pc m
      else ok m

  -- decode_exec; none of these instructions changes dnpc.
  unfoldable pub decode_exec : Decode → Machine W → Result (Decode × Machine W)
  decode_exec s m = do m' ← exec_pattern s m; ok (record s { dnpc = s.snpc }, set_gpr m' 0 0)

  unfoldable pub isa_exec_once : Decode → Machine W → Result (Decode × Machine W)
  isa_exec_once s m = do
    (inst, snpc, m') ← inst_fetch s.snpc 4 m
    decode_exec (record s { inst = inst; snpc = snpc }) m'

  unfoldable pub restart : Machine W → Machine W
  restart m = record m { pc = reset_vector c; gpr = update m.gpr 0 0 }

  unfoldable pub init_isa : Machine W → Machine W
  init_isa m = restart (record m {
    bus = record m.bus { pmem = put_image m.bus.pmem (guest_to_host c (reset_vector c)) };
  })
