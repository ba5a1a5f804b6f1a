-- ===== src/Nemu/Difftest.antt =====
-- Differential testing, ysyx-workbench/nemu/src/cpu/difftest/dut.c with CONFIG_DIFFTEST: every
-- instruction is also executed by a reference design, and the registers are compared. The reference
-- is a shared library, whose functions are parameters; the comparison is that of riscv32.
pub mod Loop
mod Examples
use for_ysyx_self_store_by_h.Base.{
  ℕ, zero, suc, ◌-◌, ◌+◌, ◌^◌, Bool, true, false, Option, none, some, List, [], ◌∷◌, if◌then◌else◌,
  ltb, ◌==◌, u32,
}
use for_ysyx_self_store_by_h.Nemu.Result.{Result, ok, failed, assertion, unsupported, ◌>>=◌}
use for_ysyx_self_store_by_h.Nemu.State.{NemuState, abort}
use for_ysyx_self_store_by_h.Nemu.Memory.Mmio.{Config}
use for_ysyx_self_store_by_h.Nemu.Memory.Paddr.{guest_to_host}
use for_ysyx_self_store_by_h.Nemu.Riscv32.{Machine, reset_vector}

-- CPU_state.
pub record Cpu : Type 0 where
  pub gpr : ℕ → ℕ
  pub pc : ℕ

abbrev pub cpu_of : {W : Type 0} → Machine W → Cpu
cpu_of m = record { gpr = m.gpr; pc = m.pc }

-- The functions of a reference with the state `R`: difftest_memcpy to the reference, from an index
-- into pmem, difftest_regcpy in both directions, difftest_exec and difftest_init.
pub record Ref (R : Type 0) : Type 0 where
  pub memcpy : ℕ → (ℕ → ℕ) → ℕ → ℕ → R → R
  pub regs_to_dut : R → Cpu
  pub regs_to_ref : Cpu → R → R
  pub exec : ℕ → R → R
  pub init : ℕ → R → R

-- is_skip_ref, skip_dut_nr_inst, the state of the reference, and the machine under test.
pub record Diff (R W : Type 0) : Type 0 where
  pub is_skip_ref : Bool
  pub skip_dut_nr_inst : ℕ
  pub ref : R
  pub machine : Machine W

-- A call of a function so many times.
abbrev pub repeat {ℓ} : {A : Type ℓ} → (A → A) → ℕ → A → A
repeat f zero a = a
repeat f (suc n) a = repeat f n (f a)

-- isa_difftest_checkregs of src/isa/riscv32/difftest/dut.c.
unfoldable pub isa_difftest_checkregs : {W : Type 0} → Machine W → Cpu → ℕ → Bool
isa_difftest_checkregs m ref_r pc = false

module _ {R W : Type 0} (lib : Ref R) where
  unfoldable pub difftest_skip_ref : Diff R W → Diff R W
  difftest_skip_ref d = record d { is_skip_ref = true; skip_dut_nr_inst = 0 }

  unfoldable pub difftest_skip_dut : ℕ → ℕ → Diff R W → Diff R W
  difftest_skip_dut nr_ref nr_dut d = record d {
    skip_dut_nr_inst = d.skip_dut_nr_inst + nr_dut;
    ref = repeat (lib.exec 1) nr_ref d.ref;
  }

  unfoldable pub checkregs : Cpu → ℕ → Diff R W → Diff R W
  checkregs ref_r pc d =
      if isa_difftest_checkregs d.machine ref_r pc
      then d
      else let m = d.machine in
        record d { machine = record m { nemu = record m.nemu { state = abort; halt_pc = pc } } }

  -- While the machine catches up with the reference.
  abbrev pub catch_up : ℕ → ℕ → Diff R W → Result (Diff R W)
  catch_up pc npc d =
      let ref_r = lib.regs_to_dut d.ref in
      if ref_r.pc == npc
      then ok (checkregs ref_r npc (record d { skip_dut_nr_inst = 0 }))
      else if d.skip_dut_nr_inst - 1 == 0
      then failed unsupported
      else ok (record d { skip_dut_nr_inst = d.skip_dut_nr_inst - 1 })

  unfoldable pub difftest_step : ℕ → ℕ → Diff R W → Result (Diff R W)
  difftest_step pc npc d =
      if ltb 0 d.skip_dut_nr_inst
      then catch_up pc npc d
      else if d.is_skip_ref
      then ok (record d { ref = lib.regs_to_ref (cpu_of d.machine) d.ref; is_skip_ref = false })
      else let ref = lib.exec 1 d.ref in
        ok (checkregs (lib.regs_to_dut ref) pc (record d { ref = ref }))

-- The shared library, as dlsym finds its functions.
pub record Library (R : Type 0) : Type 0 where
  pub difftest_memcpy : Option (ℕ → (ℕ → ℕ) → ℕ → ℕ → R → R)
  pub difftest_regcpy : Option ((R → Cpu) × (Cpu → R → R))
  pub difftest_exec : Option (ℕ → R → R)
  pub difftest_raise_intr : Option (ℕ → R → R)
  pub difftest_init : Option (ℕ → R → R)

-- assert on a pointer.
abbrev pub require {ℓ} : {A : Type ℓ} → Option A → Result A
require none = failed assertion
require (some a) = ok a

-- init_difftest: `library` is none if there is no file name, or dlopen fails. The reference gets the
-- image, `img_size` bytes from the reset vector on, and the registers.
unfoldable pub init_difftest :
    {R W : Type 0} → Config → Option (Library R) → ℕ → ℕ → Machine W → R → Result (Ref R × R)
init_difftest c library img_size port m ref = do
  handle ← require library
  memcpy ← require handle.difftest_memcpy
  (regs_to_dut, regs_to_ref) ← require handle.difftest_regcpy
  exec ← require handle.difftest_exec
  raise_intr ← require handle.difftest_raise_intr
  init ← require handle.difftest_init
  let start = reset_vector c
  let loaded = memcpy start m.bus.pmem (guest_to_host c start) img_size (init port ref)
  ok (
    record {
      memcpy = memcpy;
      regs_to_dut = regs_to_dut;
      regs_to_ref = regs_to_ref;
      exec = exec;
      init = init;
    },
    regs_to_ref (cpu_of m) loaded,
  )
