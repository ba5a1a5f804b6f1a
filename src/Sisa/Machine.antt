-- ===== src/Sisa/Machine.antt =====
-- The globals and functions of ysyx-workbench/am-kernels/tests/self/C_mini/C_sISA/main.c. The
-- array `masks` is read at constant indices only, so each mask stands as the field that it cuts out.
use for_ysyx_self_store_by_h.Base.{
  ℕ, zero, suc, ◌+◌, true, false, not, ◌&&◌, Option, none, some, List, [], ◌∷◌, ◌++◌, if◌then◌else◌,
  ltb, leb, ◌==◌, bits, u8, get_elem?, get_or, set, bit_and, bit_or,
}

-- A line that is printed: "n=%d,cal:1+2+...+%d\n" by main, and "R[%d] = %d\n" by inst_cycle.
pub data Line : Type 0 where
  title : (n : ℕ) → Line
  value : (rd n : ℕ) → Line

-- `output` lists the lines that have been printed, the first one first.
pub record State : Type 0 where
  pub pc : ℕ
  pub regs : List ℕ
  pub memory : List ℕ
  pub output : List Line

-- A register; the index is a 2-bit field and `regs` has four entries.
abbrev pub reg : State → ℕ → ℕ
reg s r = get_or s.regs r 0

abbrev pub exec_r : State → ℕ → State
exec_r s inst =
    let rd = bits inst 4 2 in
    let rs1 = bits inst 2 2 in
    let rs2 = bits inst 0 2 in record s { regs = set s.regs rd (u8 (reg s rs1 + reg s rs2)) }

abbrev pub exec_s : State → ℕ → State
exec_s s inst =
    let rd = bits inst 4 2 in
    let op = bits inst 0 4 in
    if op == 0 then record s { output = s.output ++ value rd (reg s rd) ∷ [] } else s

abbrev pub exec_i : State → ℕ → State
exec_i s inst =
    let rd = bits inst 4 2 in let imm = bits inst 0 4 in record s { regs = set s.regs rd imm }

abbrev pub exec_b : State → ℕ → State
exec_b s inst =
    let rs2 = bits inst 0 2 in
    if not (reg s rs2 == reg s 0) then record s { pc = bits inst 2 4 } else s

-- The switch on the opcode, a 2-bit field.
abbrev pub execute : State → ℕ → State
execute s inst =
    let opcode = bits inst 6 2 in
    if opcode == 0
    then exec_r s inst
    else if opcode == 1
    then exec_s s inst
    else if opcode == 2
    then exec_i s inst
    else exec_b s inst

-- `none` is a fetch out of range. `PC++` wraps at 8 bits.
unfoldable pub inst_cycle : State → Option State
inst_cycle s = elim (get_elem? s.memory s.pc) [
  | none ↦ none
  | some inst ↦ some (execute (record s { pc = u8 (s.pc + 1) }) inst)
]

-- What the loop `while (PC < 16)` has come to: it is still running when the rounds are used up, it
-- has ended, or a cycle was out of range.
pub data Outcome : Type 0 where
  running finished : State → Outcome
  fault : Outcome

unfoldable pub loop : ℕ → State → Outcome
loop zero s = running s
loop (suc rounds) s = elim (ltb s.pc 16) [
  | false ↦ finished s
  | true ↦ elim (inst_cycle s) [ none ↦ fault | some s' ↦ loop rounds s' ]
]

-- The nine bytes that main stores, and the globals, zero-initialised.
abbrev pub program : List ℕ
program =
    0b10001010 ∷ 0b10010000 ∷ 0b10100000 ∷ 0b10110001 ∷ 0b00010111 ∷ 0b00101001 ∷ 0b11010001
    ∷ 0b01100000 ∷ 0b11100011 ∷ 0 ∷ 0 ∷ 0 ∷ 0 ∷ 0 ∷ 0 ∷ 0 ∷ []

abbrev pub start : State
start = record { pc = 0; regs = 0 ∷ 0 ∷ 0 ∷ 0 ∷ []; memory = program; output = [] }

-- The int that atoi returns: `negsuc n` is -(n + 1).
pub data ℤ : Type 0 where
  pos negsuc : ℕ → ℤ

-- main before the loop, without an argument or with the number that atoi makes of it; `none` is
-- the failed assertion.
unfoldable pub boot : Option ℤ → Option State
boot none = some (record start { output = title 10 ∷ [] })
boot (some (negsuc n)) = none
boot (some (pos n)) =
    if ltb 0 n && leb n 15
    then some (record start {
      memory = set program 0 (bit_or (bit_and (get_or program 0 0) 0xF0) (bit_and n 0x0F));
      output = title n ∷ [];
    })
    else none
