-- ===== src/Nemu/Riscv32/Registers.antt =====
-- The display of the registers, ysyx-workbench/nemu/src/isa/riscv32/reg.c.
use for_ysyx_self_store_by_h.Base.{ℕ, ◌+◌, List, [], ◌∷◌, codes}
use for_ysyx_self_store_by_h.Nemu.Riscv32.{Machine}

abbrev pub regs : List (List ℕ)
regs =
    codes "$0"
    ∷ codes "ra"
    ∷ codes "sp"
    ∷ codes "gp"
    ∷ codes "tp"
    ∷ codes "t0"
    ∷ codes "t1"
    ∷ codes "t2"
    ∷ codes "s0"
    ∷ codes "s1"
    ∷ codes "a0"
    ∷ codes "a1"
    ∷ codes "a2"
    ∷ codes "a3"
    ∷ codes "a4"
    ∷ codes "a5"
    ∷ codes "a6"
    ∷ codes "a7"
    ∷ codes "s2"
    ∷ codes "s3"
    ∷ codes "s4"
    ∷ codes "s5"
    ∷ codes "s6"
    ∷ codes "s7"
    ∷ codes "s8"
    ∷ codes "s9"
    ∷ codes "s10"
    ∷ codes "s11"
    ∷ codes "t3"
    ∷ codes "t4"
    ∷ codes "t5"
    ∷ codes "t6"
    ∷ []

-- The loop, from the register `i` on.
abbrev pub show_from : (ℕ → ℕ) → ℕ → List (List ℕ) → List (List ℕ × ℕ)
show_from gpr i [] = []
show_from gpr i (name ∷ names) = (name, gpr i) ∷ show_from gpr (i + 1) names

-- The names and values that are shown, PC first; without CONFIG_RVE there are 32 registers.
unfoldable pub isa_reg_display : {W : Type 0} → Machine W → List (List ℕ × ℕ)
isa_reg_display m = (codes "pc", m.pc) ∷ show_from m.gpr 0 regs
