-- ===== src/Nemu/Difftest/Loop/Stops.antt =====
-- The loop of ysyx-workbench/nemu/src/cpu/cpu-exec.c with CONFIG_DIFFTEST against the loop without it,
-- with the comparison of src/isa/riscv32/difftest/dut.c.
use for_ysyx_self_store_by_h.Base.{ℕ, if◌then◌else◌}
use for_ysyx_self_store_by_h.Nemu.Result.{Result}
use for_ysyx_self_store_by_h.Nemu.State.{abort, is_running}
use for_ysyx_self_store_by_h.Nemu.Riscv32.{Machine}
use for_ysyx_self_store_by_h.Nemu.Cpu.{Run}
use for_ysyx_self_store_by_h.Nemu.Cpu as Cpu_exec

-- Aborted at the address of the instruction, if it still runs.
abbrev pub aborted : {W : Type 0} → ℕ → Machine W → Machine W
aborted pc m = record m { nemu = record m.nemu { state = abort; halt_pc = pc } }

abbrev pub stopped_at : {W : Type 0} → ℕ → Run W → Run W
stopped_at pc r =
    if is_running r.machine.nemu.state then record r { machine = aborted pc r.machine } else r
