-- ===== src/MiniRv/Boot.antt =====
-- The function main of ysyx-workbench/am-kernels/tests/self/C_mini/C_minirv/main.c: the checks on
-- its argument and file, the image in Memory and ROM, the ebreak that is patched in, and the loop.
use for_ysyx_self_store_by_h.Base.{
  ℕ, zero, suc, Option, none, some, List, [], ◌∷◌, if◌then◌else◌, ltb, ◌==◌, get_elem?, length,
  put_word,
}
use for_ysyx_self_store_by_h.MiniRv.Machine.{
  mem_size, State, pc_out_of_bounds, Outcome, running, exited, fault,
}
use for_ysyx_self_store_by_h.MiniRv.Exec.{inst_cycle}

-- Where main stops before the loop, each with exit code 1, or the state in which the loop starts.
-- `bad_argument` is the read of argv[1][15] behind the end of a short argument.
pub data Start : Type 0 where
  usage cannot_open too_large bad_argument : Start
  started : State → Start

-- A character of a string, its terminating 0 included.
abbrev pub char_at : List ℕ → ℕ → Option ℕ
char_at text i = if i == length text then some 0 else get_elem? text i

-- The switch on argv[1][15]: the address of the halt loop in mem.bin, sum.bin and vga.bin.
unfoldable pub halt_addr : ℕ → ℕ
halt_addr c =
    if c == b'm' then 0x1218 else if c == b's' then 0x224 else if c == b'v' then 0xdb0 else 0x1218

-- The zero-initialised array with the bytes of the file at its start.
abbrev pub image : List ℕ → ℕ → ℕ
image [] i = 0
image (b ∷ bs) zero = b
image (b ∷ bs) (suc i) = image bs i

abbrev pub ebreak_inst : ℕ
ebreak_inst = 0x00100073

-- Both arrays hold the file; in ROM the word at `halt` is replaced.
unfoldable pub load_image : List ℕ → ℕ → State
load_image file halt = record {
  regs = λ r. 0;
  memory = image file;
  rom = put_word (image file) halt ebreak_inst;
  pc = 0;
}

-- `open_file` stands for fopen, ftell and fread.
unfoldable pub start : (List ℕ → Option (List ℕ)) → List (List ℕ) → Start
unfolding load_image halt_addr
start open_file [] = usage
start open_file (name ∷ []) = usage
start open_file (name ∷ path ∷ rest) = elim (open_file path) [
  | none ↦ cannot_open
  | some file ↦ if ltb mem_size (length file) then too_large else elim (char_at path 15) [
    | none ↦ bad_argument
    | some c ↦ started (load_image file (halt_addr c))
  ]
]

-- The body of the loop: a cycle, and the check on PC behind it, which ends main with code 0.
abbrev pub check_pc : Outcome → Outcome
check_pc (running s) = if ltb mem_size s.pc then exited 0 pc_out_of_bounds else running s
check_pc (exited code m) = exited code m
check_pc fault = fault

unfoldable pub iterate : State → Outcome
iterate s = check_pc (inst_cycle s)

-- The loop for at most so many rounds. `running` means that it has not ended by then.
unfoldable pub loop : ℕ → State → Outcome
loop zero s = running s
loop (suc fuel) s = elim (iterate s) [
  | running s' ↦ loop fuel s'
  | exited code m ↦ exited code m
  | fault ↦ fault
]
