-- ===== src/Nemu/Isa.antt =====
-- The loop of ysyx-workbench/nemu/src/cpu/cpu-exec.c over the instructions of any ISA, whose
-- isa_exec_once is a parameter. Nemu/Cpu has the same loop for riscv32, with the count of
-- instructions.
mod Examples
use for_ysyx_self_store_by_h.Base.{ℕ, zero, suc, if◌then◌else◌}
use for_ysyx_self_store_by_h.Nemu.Result.{Result, ok, ◌>>=◌}
use for_ysyx_self_store_by_h.Nemu.State.{running, is_running}
use for_ysyx_self_store_by_h.Nemu.Riscv32.{Machine, Decode}

module _ {W : Type 0} (isa_exec_once : Decode → Machine W → Result (Decode × Machine W)) where
  unfoldable pub isa_step : Machine W → Result (Machine W)
  isa_step m = do
    (s, m') ← isa_exec_once (record { pc = m.pc; snpc = m.pc; dnpc = 0; inst = 0 }) m
    ok (record m' { pc = s.dnpc })

  unfoldable pub isa_execute : ℕ → Machine W → Result (Machine W)
  isa_execute zero m = ok m
  isa_execute (suc n) m = do
    m' ← isa_step m
    let rest = isa_execute n m'
    if is_running m'.nemu.state then rest else ok m'

-- The machine that cpu_exec sets out from.
abbrev pub started : {W : Type 0} → Machine W → Machine W
started m = record m { nemu = record { state = running; halt_pc = 0; halt_ret = 0 } }
