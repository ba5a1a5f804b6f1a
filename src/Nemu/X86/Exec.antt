-- ===== src/Nemu/X86/Exec.antt =====
-- isa_exec_once of ysyx-workbench/nemu/src/isa/x86/inst.c: the table of patterns over the opcode, and
-- the operand-size prefix, which goes on to the next opcode.
use for_ysyx_self_store_by_h.Base.{
  ℕ, zero, suc, ◌+◌, ◌-◌, ◌^◌, Bool, true, false, Option, none, some, List, [], ◌∷◌, if◌then◌else◌,
  ◌==◌, codes, u32,
}
use for_ysyx_self_store_by_h.Nemu.Result.{Result, ok, failed, fault, ◌>>=◌}
use for_ysyx_self_store_by_h.Nemu.State.{Mode, end, abort, is_running}
use for_ysyx_self_store_by_h.Nemu.Memory.Mmio.{Config}
use for_ysyx_self_store_by_h.Nemu.Memory.Paddr.{vaddr_ifetch, vaddr_read, vaddr_write}
use for_ysyx_self_store_by_h.Nemu.Riscv32.{instpat}
use for_ysyx_self_store_by_h.Nemu.X86.{X86, reg_read, reg_write}
use for_ysyx_self_store_by_h.Nemu.X86.Decode.{
  Decode, Operands, Kind, type_i2r, type_g2e, type_e2g, type_i2e, type_o2a, type_a2o, type_n, r_eax,
  x86_inst_fetch, decode_operand,
}

abbrev pub set_nemu_state : {W : Type 0} → Mode → ℕ → ℕ → X86 W → X86 W
set_nemu_state state pc halt_ret m = record m {
  nemu = record { state = state; halt_pc = pc; halt_ret = halt_ret };
}

-- What the body of a pattern leaves: the state behind the instruction, or another opcode to read.
pub data Next (W : Type 0) : Type 0 where
  done : Decode → X86 W → Next W
  again : Decode → X86 W → Next W

-- The bodies of the patterns.
pub data Body : Type 0 where
  two_byte_esc data_size gp1 mov_to_rm mov_from_rm mov_load mov_store mov_imm mov_imm_to_rm : Body
  nemu_trap inv : Body

-- A row of the table; `width` 0 stands for the operand size.
pub record Row : Type 0 where
  pub pattern : List ℕ
  pub body : Body
  pub kind : Kind
  pub width : ℕ

abbrev pub row : List ℕ → Body → Kind → ℕ → Row
row pattern body kind width = record { pattern = pattern; body = body; kind = kind; width = width }

abbrev pub table : List Row
table =
    row (codes "0000 1111") two_byte_esc type_n 0
    ∷ row (codes "0110 0110") data_size type_n 0
    ∷ row (codes "1000 0000") gp1 type_i2e 1
    ∷ row (codes "1000 1000") mov_to_rm type_g2e 1
    ∷ row (codes "1000 1001") mov_to_rm type_g2e 0
    ∷ row (codes "1000 1010") mov_from_rm type_e2g 1
    ∷ row (codes "1000 1011") mov_from_rm type_e2g 0
    ∷ row (codes "1010 0000") mov_load type_o2a 1
    ∷ row (codes "1010 0001") mov_load type_o2a 0
    ∷ row (codes "1010 0010") mov_store type_a2o 1
    ∷ row (codes "1010 0011") mov_store type_a2o 0
    ∷ row (codes "1011 0???") mov_imm type_i2r 1
    ∷ row (codes "1011 1???") mov_imm type_i2r 0
    ∷ row (codes "1100 0110") mov_imm_to_rm type_i2e 1
    ∷ row (codes "1100 0111") mov_imm_to_rm type_i2e 0
    ∷ row (codes "1100 1100") nemu_trap type_n 0
    ∷ row (codes "???? ????") inv type_n 0
    ∷ []

-- The first row that fits.
unfoldable pub find_row : List Row → ℕ → Option Row
find_row [] opcode = none
find_row (r ∷ rows) opcode =
    let rest = find_row rows opcode in if instpat r.pattern opcode then some r else rest

module _ {W : Type 0} (c : Config) where
  -- invalid_inst of src/engine/interpreter/hostcall.c, which fetches two words for its report.
  unfoldable pub invalid_inst : ℕ → X86 W → Result (X86 W)
  invalid_inst thispc m = do
    (w0, bus0) ← vaddr_ifetch c thispc 4 m.bus
    (w1, bus1) ← vaddr_ifetch c (u32 (thispc + 4)) 4 bus0
    ok (set_nemu_state abort thispc (2 ^ 32 - 1) (record m { bus = bus1 }))

  -- RMr and RMw.
  abbrev pub rm_read : Option ℕ → ℕ → ℕ → X86 W → Result (ℕ × X86 W)
  rm_read none addr w m = do (v, bus) ← vaddr_read c addr w m.bus; ok (v, record m { bus = bus })
  rm_read (some reg) addr w m = do v ← reg_read reg w m; ok (v, m)

  abbrev pub rm_write : Option ℕ → ℕ → ℕ → ℕ → X86 W → Result (X86 W)
  rm_write none addr w value m = do
    bus ← vaddr_write c addr w value m.bus
    ok (record m { bus = bus })
  rm_write (some reg) addr w value m = reg_write reg w value m

  -- Nothing but the invalid instruction behind the escape.
  unfoldable pub two_byte : Decode → X86 W → Result (Decode × X86 W)
  two_byte s m = do
    (opcode, s1, m1) ← x86_inst_fetch c 1 s m
    m2 ← invalid_inst s1.pc m1
    ok (record s1 { dnpc = s1.snpc }, m2)

  -- The prefix does nothing else here.
  unfoldable pub exec_body : Body → Operands → ℕ → Decode → X86 W → Result (Decode × X86 W)
  exec_body two_byte_esc o w s m = two_byte s m
  exec_body data_size o w s m = ok (s, m)
  exec_body gp1 o w s m = do m' ← invalid_inst s.pc m; ok (s, m')
  exec_body mov_to_rm o w s m = do m' ← rm_write o.rd o.addr w o.src1 m; ok (s, m')
  exec_body mov_from_rm o w s m = do
    (v, m1) ← rm_read o.rs o.addr w m
    m2 ← rm_write o.rd o.addr w v m1
    ok (s, m2)
  exec_body mov_load o w s m = do
    (v, m1) ← rm_read none o.addr w m
    m2 ← reg_write r_eax w v m1
    ok (s, m2)
  exec_body mov_store o w s m = do
    v ← reg_read r_eax w m
    m' ← rm_write none o.addr w v m
    ok (s, m')
  exec_body mov_imm o w s m = do m' ← rm_write o.rd o.addr w o.imm m; ok (s, m')
  exec_body mov_imm_to_rm o w s m = do m' ← rm_write o.rd o.addr w o.imm m; ok (s, m')
  exec_body nemu_trap o w s m = ok (s, set_nemu_state end s.pc (m.named 0) m)
  exec_body inv o w s m = do m' ← invalid_inst s.pc m; ok (s, m')

  -- `goto again` behind the prefix.
  abbrev pub ends_with : Body → Decode → X86 W → Next W
  ends_with data_size s m = again s m
  ends_with _ s m = done s m

  -- INSTPAT_MATCH: the operands, dnpc, and the body.
  unfoldable pub match_row : Bool → ℕ → Option Row → Decode → X86 W → Result (Next W)
  match_row is_operand_size_16 opcode none s m = ok (done s m)
  match_row is_operand_size_16 opcode (some r) s m = do
    let w = if r.width == 0 then if is_operand_size_16 then 2 else 4 else r.width
    (o, s1, m1) ← decode_operand c opcode w r.kind s m
    (s2, m2) ← exec_body r.body o w (record s1 { dnpc = s1.snpc }) m1
    ok (ends_with r.body s2 m2)

  unfoldable pub exec_opcode : Bool → Decode → X86 W → Result (Next W)
  exec_opcode is_operand_size_16 s m = do
    (opcode, s1, m1) ← x86_inst_fetch c 1 s m
    match_row is_operand_size_16 opcode (find_row table opcode) s1 m1

  -- The loop of `goto again`, which only the prefix takes: at most so many opcodes are read. `none`
  -- says that they are used up.
  unfoldable pub exec_from : ℕ → Bool → Decode → X86 W → Option (Result (Decode × X86 W))
  exec_from zero is_operand_size_16 s m = none
  exec_from (suc n) is_operand_size_16 s m = elim (exec_opcode is_operand_size_16 s m) [
    | failed e ↦ some (failed e)
    | fault ↦ some fault
    | ok next ↦ elim next [ done s' m' ↦ some (ok (s', m')) | again s' m' ↦ exec_from n true s' m' ]
  ]

  abbrev pub finish : Option (Result (Decode × X86 W)) → Option (Result (X86 W))
  finish none = none
  finish (some r) = some (do (s, m) ← r; ok (record m { pc = s.dnpc }))

  -- exec_once of src/cpu/cpu-exec.c. An instruction has less than 16 bytes, so 16 opcodes are enough.
  unfoldable pub exec_once : X86 W → Option (Result (X86 W))
  exec_once m = finish (exec_from 16 false (record { pc = m.pc; snpc = m.pc; dnpc = 0 }) m)

  abbrev pub go_on :
      (X86 W → Option (Result (X86 W))) → Option (Result (X86 W)) → Option (Result (X86 W))
  go_on next none = none
  go_on next (some (failed e)) = some (failed e)
  go_on next (some fault) = some fault
  go_on next (some (ok m)) =
      let rest = next m in if is_running m.nemu.state then rest else some (ok m)

  -- The loop of execute of src/cpu/cpu-exec.c.
  unfoldable pub execute : ℕ → X86 W → Option (Result (X86 W))
  execute zero m = some (ok m)
  execute (suc n) m = go_on (execute n) (exec_once m)
