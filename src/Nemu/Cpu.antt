-- ===== src/Nemu/Cpu.antt =====
-- ysyx-workbench/nemu/src/cpu/cpu-exec.c: the loop that executes guest instructions. The trace, the
-- timer and the statistics only print; CONFIG_DIFFTEST and CONFIG_DEVICE are not set, as by
-- default, so no other code runs between two instructions.
pub mod Examples
pub mod Image
pub mod Laws
pub mod Split
use for_ysyx_self_store_by_h.Base.{ℕ, zero, suc, ◌+◌, ◌%◌, ◌^◌, Bool, true, false, if◌then◌else◌}
use for_ysyx_self_store_by_h.Nemu.Result.{Result, ok, failed, fault, ◌>>=◌}
use for_ysyx_self_store_by_h.Nemu.State.{Mode, running, stop, is_running}
use for_ysyx_self_store_by_h.Nemu.Memory.Mmio.{Config}
use for_ysyx_self_store_by_h.Nemu.Riscv32.{Machine, isa_exec_once}

-- The machine and g_nr_guest_inst, a uint64_t.
pub record Run (W : Type 0) : Type 0 where
  pub machine : Machine W
  pub nr_guest_inst : ℕ

abbrev pub set_mode : {W : Type 0} → Machine W → Mode → Machine W
set_mode m mode = record m { nemu = record m.nemu { state = mode } }

-- Whether the program has ended: cpu_exec then only prints a line.
abbrev pub has_ended : Mode → Bool
has_ended running = false
has_ended stop = false
has_ended _ = true

-- The switch behind the loop.
abbrev pub settle : {W : Type 0} → Run W → Run W
settle r =
    if is_running r.machine.nemu.state then record r { machine = set_mode r.machine stop } else r

module _ {W : Type 0} (c : Config) where
  -- The Decode structure is set but for the word, which isa_exec_once fetches.
  unfoldable pub exec_once : ℕ → Machine W → Result (Machine W)
  exec_once pc m = do
    (s, m') ← isa_exec_once c (record { pc = pc; snpc = pc; dnpc = 0; inst = 0 }) m
    ok (record m' { pc = s.dnpc })

  -- The loop of execute, for at most so many instructions.
  unfoldable pub execute : ℕ → Run W → Result (Run W)
  execute zero r = ok r
  execute (suc n) r = elim (exec_once r.machine.pc r.machine) [
    | failed e ↦ failed e
    | fault ↦ fault
    | ok m ↦ elim (is_running m.nemu.state) [
      | true ↦ execute n (record { machine = m; nr_guest_inst = (r.nr_guest_inst + 1) % 2 ^ 64 })
      | false ↦ ok (record { machine = m; nr_guest_inst = (r.nr_guest_inst + 1) % 2 ^ 64 })
    ]
  ]

  unfoldable pub cpu_exec : ℕ → Run W → Result (Run W)
  cpu_exec n r =
      if has_ended r.machine.nemu.state
      then ok r
      else (do r' ← execute n (record r { machine = set_mode r.machine running }); ok (settle r'))
