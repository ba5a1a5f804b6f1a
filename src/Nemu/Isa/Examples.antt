-- ===== src/Nemu/Isa/Examples.antt =====
-- The theorems on mips32 and loongarch32r at concrete machines.
use for_ysyx_self_store_by_h.Base.{ℕ, ◌≡◌, []}
use for_ysyx_self_store_by_h.Nemu.State.{stop}
use for_ysyx_self_store_by_h.Nemu.Riscv32.{Machine, Decode}
use for_ysyx_self_store_by_h.Nemu.Cpu.Image.{default_config}
use for_ysyx_self_store_by_h.Nemu.Mips32
use for_ysyx_self_store_by_h.Nemu.Mips32.Fields as MipsFields

abbrev powered : Machine (Unit {0})
powered = record {
  gpr = λ i. 5;
  pc = 0;
  nemu = record { state = stop; halt_pc = 0; halt_ret = 0 };
  bus = record { pmem = λ i. 9; maps = []; io = record { io_space = λ i. 0; devices = tt } };
}

abbrev fetched : ℕ → Decode
fetched inst = record { pc = 0x80000004; snpc = 0x80000008; dnpc = 0; inst = inst }

-- sw zero, 0(a0)
mips32-by_fields_example :
    Mips32.exec_pattern default_config (fetched 0xac800000) powered
    ≡ MipsFields.by_fields default_config (fetched 0xac800000) powered
mips32-by_fields_example = MipsFields.mips32-by_fields default_config (fetched 0xac800000) powered
