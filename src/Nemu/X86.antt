-- ===== src/Nemu/X86.antt =====
-- The x86 ISA of NEMU, ysyx-workbench/nemu/src/isa/x86: the registers of include/isa-def.h and
-- local-include/reg.h with their test in reg.c, and the start-up of init.c. The registers are as the
-- header declares them, a structure whose parts of 32, 16 and 8 bits do not overlap.
pub mod Decode
pub mod Exec
pub mod Image
pub mod Prefix
mod Examples
use for_ysyx_self_store_by_h.Base.{
  ℕ, zero, suc, ◌+◌, ◌/◌, ◌%◌, ◌^◌, Bool, not, ◌&&◌, List, [], ◌∷◌, if◌then◌else◌, ltb, ◌==◌, codes,
  update, u32,
}
use for_ysyx_self_store_by_h.Nemu.Result.{Result, ok, failed, assertion, check, ◌>>=◌, ◌>>◌}
use for_ysyx_self_store_by_h.Nemu.State.{NemuState}
use for_ysyx_self_store_by_h.Nemu.Memory.Mmio.{Config}
use for_ysyx_self_store_by_h.Nemu.Memory.Paddr.{Bus, guest_to_host}
use for_ysyx_self_store_by_h.Nemu.Riscv32.{reset_vector}

-- x86_CPU_state with nemu_state and the memory side: gpr[i]._32, gpr[i]._16 and gpr[i]._8[j], and the
-- eight registers that are also declared by name, eax, ecx, edx, ebx, esp, ebp, esi, edi.
pub record X86 (W : Type 0) : Type 0 where
  pub gpr_32 : ℕ → ℕ
  pub gpr_16 : ℕ → ℕ
  pub gpr_8 : ℕ → ℕ → ℕ
  pub named : ℕ → ℕ
  pub pc : ℕ
  pub nemu : NemuState
  pub bus : Bus W

abbrev pub regsl : List (List ℕ)
regsl =
    codes "eax"
    ∷ codes "ecx"
    ∷ codes "edx"
    ∷ codes "ebx"
    ∷ codes "esp"
    ∷ codes "ebp"
    ∷ codes "esi"
    ∷ codes "edi"
    ∷ []

abbrev pub regsw : List (List ℕ)
regsw =
    codes "ax"
    ∷ codes "cx"
    ∷ codes "dx"
    ∷ codes "bx"
    ∷ codes "sp"
    ∷ codes "bp"
    ∷ codes "si"
    ∷ codes "di"
    ∷ []

abbrev pub regsb : List (List ℕ)
regsb =
    codes "al"
    ∷ codes "cl"
    ∷ codes "dl"
    ∷ codes "bl"
    ∷ codes "ah"
    ∷ codes "ch"
    ∷ codes "dh"
    ∷ codes "bh"
    ∷ []

abbrev pub check_reg_index : ℕ → Result (Unit {0})
check_reg_index index = check (ltb index 8) assertion

module _ {W : Type 0} where
  -- reg_l, reg_w and reg_b, for an index that check_reg_index lets pass.
  abbrev pub reg_l : ℕ → X86 W → ℕ
  reg_l index m = m.gpr_32 index

  abbrev pub reg_w : ℕ → X86 W → ℕ
  reg_w index m = m.gpr_16 index

  abbrev pub reg_b : ℕ → X86 W → ℕ
  reg_b index m = m.gpr_8 (index % 4) (index / 4)

  unfoldable pub reg_read : ℕ → ℕ → X86 W → Result ℕ
  reg_read idx width m =
      check_reg_index idx
      >> (if width == 4
          then ok (reg_l idx m)
          else if width == 1
          then ok (reg_b idx m)
          else if width == 2
          then ok (reg_w idx m)
          else failed assertion)

  unfoldable pub reg_write : ℕ → ℕ → ℕ → X86 W → Result (X86 W)
  reg_write idx width value m =
      check_reg_index idx
      >> (if width == 4
          then ok (record m { gpr_32 = update m.gpr_32 idx (u32 value) })
          else if width == 1
          then ok (record m {
            gpr_8 = update m.gpr_8 (idx % 4) (update (m.gpr_8 (idx % 4)) (idx / 4) (value % 2 ^ 8));
          })
          else if width == 2
          then ok (record m { gpr_16 = update m.gpr_16 idx (value % 2 ^ 16) })
          else failed assertion)

  -- The loop of reg_test from register `i` on, for so many, with what rand returns.
  unfoldable pub test_words : ℕ → ℕ → (ℕ → ℕ) → X86 W → Result (X86 W)
  test_words zero i sample m = ok m
  test_words (suc n) i sample m = do
    m' ← reg_write i 4 (sample i) m
    check (reg_w i m' == sample i % 2 ^ 16) assertion
    test_words n (i + 1) sample m'

  -- AL and AH, and so on, are the low bytes of the register `i`.
  abbrev pub test_bytes : ℕ → (ℕ → ℕ) → X86 W → Bool
  test_bytes i sample m =
      reg_b i m == sample i % 2 ^ 8 && reg_b (i + 4) m == sample i / 2 ^ 8 % 2 ^ 8

  abbrev pub test_named : ℕ → (ℕ → ℕ) → X86 W → Bool
  test_named zero sample m = Bool.true
  test_named (suc n) sample m = test_named n sample m && sample n == m.named n

  unfoldable pub reg_test : (ℕ → ℕ) → ℕ → X86 W → Result (X86 W)
  reg_test sample pc_sample m = do
    m' ← test_words 8 0 sample (record m { pc = pc_sample })
    check
        (test_bytes 0 sample m'
          && test_bytes 3 sample m'
          && test_bytes 1 sample m'
          && test_bytes 2 sample m')
        assertion
    check (test_named 8 sample m') assertion
    check (pc_sample == m'.pc) assertion
    ok m'

-- The bytes of `img`, the built-in image.
abbrev pub img : List ℕ
img =
    0xb8 ∷ 0x34 ∷ 0x12 ∷ 0x00 ∷ 0x00 ∷ 0xb9 ∷ 0x27 ∷ 0x00 ∷ 0x10 ∷ 0x00 ∷ 0x89 ∷ 0x01 ∷ 0x66 ∷ 0xc7
    ∷ 0x41 ∷ 0x04 ∷ 0x01 ∷ 0x00 ∷ 0xbb ∷ 0x02 ∷ 0x00 ∷ 0x00 ∷ 0x00 ∷ 0x66 ∷ 0xc7 ∷ 0x84 ∷ 0x99
    ∷ 0x00 ∷ 0xe0 ∷ 0xff ∷ 0xff ∷ 0x01 ∷ 0x00 ∷ 0xb8 ∷ 0x00 ∷ 0x00 ∷ 0x00 ∷ 0x00 ∷ 0xcc ∷ []

abbrev pub put_bytes : (ℕ → ℕ) → ℕ → List ℕ → ℕ → ℕ
put_bytes a i [] = a
put_bytes a i (b ∷ bs) = put_bytes (update a i b) (i + 1) bs

module _ {W : Type 0} (c : Config) where
  unfoldable pub restart : X86 W → X86 W
  restart m = record m { pc = reset_vector c }

  -- reg_test is only run without CONFIG_DETERMINISTIC.
  unfoldable pub init_isa : Bool → (ℕ → ℕ) → ℕ → X86 W → Result (X86 W)
  init_isa deterministic sample pc_sample m = do
    m' ← if deterministic then ok m else reg_test sample pc_sample m
    let pmem = put_bytes m'.bus.pmem (guest_to_host c (reset_vector c)) img
    ok (restart (record m' { bus = record m'.bus { pmem = pmem } }))
