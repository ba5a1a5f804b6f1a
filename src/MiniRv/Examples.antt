-- ===== src/MiniRv/Examples.antt =====
-- The theorems about the minirv emulator at concrete programs, and tests of the definitions.
use for_ysyx_self_store_by_h.Base.{
  ℕ, ◌*◌, codes, ◌/◌, ◌%◌, ◌^◌, ◌≡◌, refl, Option, none, some, List, [], ◌∷◌, arith, load32,
  IsBytes,
}
use for_ysyx_self_store_by_h.MiniRv.Machine.{State, running, exited, hit_good_trap}
use for_ysyx_self_store_by_h.MiniRv.Exec.{
  set_reg, fetched, inst_cycle, execute, exec_op_imm, exec_jalr,
}
use for_ysyx_self_store_by_h.MiniRv.Spec.{Instr, addi, jalr, lw, sw, ebreak, encode, step, view}
use for_ysyx_self_store_by_h.MiniRv.Refine.{inst_cycle-step}
use for_ysyx_self_store_by_h.MiniRv.Range.{IsInRange, Keeps, inst_cycle-Keeps}
use for_ysyx_self_store_by_h.MiniRv.Machine.{mem_size}
use for_ysyx_self_store_by_h.MiniRv.Boot.{
  started, usage, cannot_open, start, load_image, image, loop, iterate,
}
use for_ysyx_self_store_by_h.MiniRv.Program.Runs.{Run, next, stop, loop-Run}
use for_ysyx_self_store_by_h.MiniRv.Program.Halt.{image-IsBytes}

-- The file of a program.
abbrev assemble : List Instr → List ℕ
assemble [] = []
assemble (i ∷ is) =
    encode i % 2 ^ 8
    ∷ (encode i / 2 ^ 8 % 2 ^ 8)
    ∷ (encode i / 2 ^ 16 % 2 ^ 8)
    ∷ (encode i / 2 ^ 24 % 2 ^ 8)
    ∷ assemble is

abbrev machine : List Instr → State
machine is = record { regs = λ r. 0; memory = λ a. 0; rom = image (assemble is); pc = 0 }

-- a0 = 5 + (-5)
abbrev sums : List Instr
sums = addi 1 0 5 ∷ addi 10 1 0xffb ∷ ebreak ∷ []

inst_cycle-step_example : view (inst_cycle (machine sums)) ≡ step (addi 1 0 5) (machine sums)
unfolding load32
inst_cycle-step_example = inst_cycle-step (machine sums) (addi 1 0 5) (omega arith) refl

zero-IsBytes : IsBytes (λ a. 0)
zero-IsBytes a = omega arith

machine-IsInRange : IsInRange (machine sums)
machine-IsInRange = record {
  regs = λ r. omega arith;
  memory = zero-IsBytes;
  rom = image-IsBytes (assemble sums) (omega arith);
  pc = omega arith;
}

inst_cycle-Keeps_example : Keeps (machine sums).rom (inst_cycle (machine sums))
inst_cycle-Keeps_example = inst_cycle-Keeps (machine sums) machine-IsInRange

sums_run : Run 3 (machine sums) (exited 0 hit_good_trap)
unfolding load32
sums_run =
    next (addi 1 0 5) (omega arith) refl refl (omega arith)
      (next (addi 10 1 0xffb) (omega arith) refl refl (omega arith) (stop ebreak tt refl refl))

loop-Run_example : view (loop 3 (machine sums)) ≡ exited 0 hit_good_trap
loop-Run_example = loop-Run sums_run

-- The image whose code falls through to the word that main replaces.
abbrev falls : List ℕ
falls = assemble (addi 10 0 1 ∷ [])

abbrev loaded_falls : State
loaded_falls = load_image falls 4

-- After `addi a0, zero, 1`.
abbrev at_patch : State
at_patch = set_reg (fetched loaded_falls) 10 1

falls_runs : loop 1 loaded_falls ≡ running at_patch
unfolding loop iterate inst_cycle load32 execute exec_op_imm load_image
falls_runs = refl

-- `jalr zero, 0(ra)`, with ra at the end of ROM.
abbrev at_edge : State
at_edge = record (machine (jalr 0 1 0 ∷ [])) { regs = λ r. mem_size }

abbrev past_edge : State
past_edge = set_reg (record (fetched at_edge) { pc = mem_size }) 0 4

edge_runs : inst_cycle at_edge ≡ running past_edge
unfolding inst_cycle load32 execute exec_jalr
edge_runs = refl

-- `sw x5, -4(x6); lw x7, -4(x6)`, with x6 at 256.
abbrev spill : State
spill = record (machine (sw 5 6 0xffc ∷ lw 7 6 0xffc ∷ [])) { regs = λ r. r * 0x2a }

-- main, over a file system that has one file.
abbrev mem_bin : List ℕ
mem_bin = codes "./bin/minirv16/mem.bin"

abbrev one_file : List ℕ → Option (List ℕ)
one_file path = some (assemble (ebreak ∷ []))

main_starts :
    (start one_file ([] ∷ []) ≡ usage)
    × (start (λ path. none) ([] ∷ mem_bin ∷ []) ≡ cannot_open)
    × (start one_file ([] ∷ mem_bin ∷ []) ≡ started (load_image (assemble (ebreak ∷ [])) 0x1218))
unfolding start
main_starts = (refl, refl, refl)
