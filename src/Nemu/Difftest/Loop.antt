-- ===== src/Nemu/Difftest/Loop.antt =====
-- The loop of ysyx-workbench/nemu/src/cpu/cpu-exec.c with CONFIG_DIFFTEST and without CONFIG_DEVICE,
-- and the functions of src/cpu/difftest/ref.c, by which NEMU is a reference itself.
pub mod Stops
use for_ysyx_self_store_by_h.Base.{ℕ, zero, suc, ◌+◌, ◌%◌, ◌^◌, Bool, true, false, if◌then◌else◌}
use for_ysyx_self_store_by_h.Nemu.Result.{Result, ok, failed, fault, assertion}
use for_ysyx_self_store_by_h.Nemu.State.{is_running}
use for_ysyx_self_store_by_h.Nemu.Memory.Mmio.{Config}
use for_ysyx_self_store_by_h.Nemu.Memory.Paddr.{init_mem}
use for_ysyx_self_store_by_h.Nemu.Riscv32.{Machine, init_isa}
use for_ysyx_self_store_by_h.Nemu.Cpu.{Run, exec_once}
use for_ysyx_self_store_by_h.Nemu.Difftest.{Cpu, Ref, Diff, difftest_skip_ref, difftest_step}

-- The machine with its reference, and g_nr_guest_inst.
pub record Tested (R W : Type 0) : Type 0 where
  pub diff : Diff R W
  pub nr_guest_inst : ℕ

abbrev pub run_of : {R W : Type 0} → Tested R W → Run W
run_of t = record { machine = t.diff.machine; nr_guest_inst = t.nr_guest_inst }

module _ {R W : Type 0} (c : Config) (lib : Ref R) where
  -- The instruction has left the machine `m`. A running emulator stops by set_nemu_state alone, which
  -- calls difftest_skip_ref; without devices nothing else does.
  abbrev pub executed : Machine W → Diff R W → Diff R W
  executed m d =
      if is_running m.nemu.state
      then record d { machine = m }
      else difftest_skip_ref lib (record d { machine = m })

  -- The loop of execute, for at most so many instructions, with trace_and_difftest.
  unfoldable pub execute : ℕ → Tested R W → Result (Tested R W)
  execute zero t = ok t
  execute (suc n) t = elim (exec_once c t.diff.machine.pc t.diff.machine) [
    | failed e ↦ failed e
    | fault ↦ fault
    | ok m ↦ elim (difftest_step lib t.diff.machine.pc m.pc (executed m t.diff)) [
      | failed e ↦ failed e
      | fault ↦ fault
      | ok d ↦ elim (is_running d.machine.nemu.state) [
        | true ↦ execute n (record { diff = d; nr_guest_inst = (t.nr_guest_inst + 1) % 2 ^ 64 })
        | false ↦ ok (record { diff = d; nr_guest_inst = (t.nr_guest_inst + 1) % 2 ^ 64 })
      ]
    ]
  ]

-- ref.c: difftest_init starts the machine, and every other function is assert (0).
unfoldable difftest_init : {W : Type 0} → Config → Bool → ℕ → Machine W → Machine W
difftest_init c mem_random rand m = init_isa c (record m { bus = init_mem c mem_random rand m.bus })

abbrev difftest_memcpy : {W : Type 0} → ℕ → ℕ → Bool → Machine W → Result (Machine W)
difftest_memcpy addr n direction m = failed assertion

abbrev difftest_regcpy : {W : Type 0} → Cpu → Bool → Machine W → Result (Cpu × Machine W)
difftest_regcpy dut direction m = failed assertion

abbrev difftest_exec : {W : Type 0} → ℕ → Machine W → Result (Machine W)
difftest_exec n m = failed assertion

abbrev difftest_raise_intr : {W : Type 0} → ℕ → Machine W → Result (Machine W)
difftest_raise_intr number m = failed assertion
