-- ===== src/Nemu/Cpu/Examples.antt =====
-- The theorems on the decoder and on cpu_exec at the built-in image.
use for_ysyx_self_store_by_h.Base.{◌+◌, ◌≡◌, refl, arith, false, []}
use for_ysyx_self_store_by_h.Nemu.Result.{ok, ◌>>=◌, Ensures}
use for_ysyx_self_store_by_h.Nemu.State.{stop, end, is_exit_status_bad}
use for_ysyx_self_store_by_h.Nemu.Riscv32.{Machine, init_isa, restart, Decode, exec_pattern}
use for_ysyx_self_store_by_h.Nemu.Riscv32.Dispatch.{by_fields, exec_pattern-by_fields}
use for_ysyx_self_store_by_h.Nemu.Cpu.{Run, has_ended, cpu_exec}
use for_ysyx_self_store_by_h.Nemu.Cpu.Image.{default_config, booted, image-good_trap}
use for_ysyx_self_store_by_h.Nemu.Cpu.Laws.{Executed, cpu_exec-Executed}
use for_ysyx_self_store_by_h.Nemu.Cpu.Split.{cpu_exec-add}

abbrev powered : Machine (Unit {0})
powered = record {
  gpr = λ i. 5;
  pc = 0;
  nemu = record { state = stop; halt_pc = 0; halt_ret = 0 };
  bus = record { pmem = λ i. 9; maps = []; io = record { io_space = λ i. 0; devices = tt } };
}

abbrev first : Run (Unit {0})
first = booted powered 0

image-good_trap_example :
    (r : Run (Unit {0})) × (cpu_exec default_config 10 first ≡ ok r)
    × (r.machine.nemu ≡ record { state = end; halt_pc = 0x8000000c; halt_ret = 0 })
    × (r.nr_guest_inst ≡ 4)
    × (is_exit_status_bad r.machine.nemu ≡ false)
image-good_trap_example = image-good_trap powered 6

first_has_not_ended : has_ended first.machine.nemu.state ≡ false
unfolding init_isa restart
first_has_not_ended = refl

cpu_exec-Executed_example :
    Ensures (Executed default_config 3 first) (cpu_exec default_config 3 first)
cpu_exec-Executed_example = cpu_exec-Executed default_config 3 first first_has_not_ended

cpu_exec-add_example :
    cpu_exec default_config (1 + 9) first
    ≡ cpu_exec default_config 1 first >>= cpu_exec default_config 9
cpu_exec-add_example = cpu_exec-add default_config 1 9 first

-- sb x0, 16(x5)
abbrev store : Decode
store = record { pc = 0x80000004; snpc = 0x80000008; dnpc = 0; inst = 0x00028823 }

exec_pattern-by_fields_example :
    exec_pattern default_config store powered ≡ by_fields default_config store powered
exec_pattern-by_fields_example = exec_pattern-by_fields default_config store powered (omega arith)
