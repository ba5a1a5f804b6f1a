-- ===== src/Nemu/Difftest/Examples.antt =====
-- Differential testing against a reference that goes from word to word, and tests.
use for_ysyx_self_store_by_h.Base.{ℕ, ◌+◌, ◌*◌, ◌≡◌, refl, false, none, []}
use for_ysyx_self_store_by_h.Nemu.Result.{Result, ok, failed, assertion, ◌>>=◌}
use for_ysyx_self_store_by_h.Nemu.State.{running, abort}
use for_ysyx_self_store_by_h.Nemu.Riscv32.{Machine}
use for_ysyx_self_store_by_h.Nemu.Cpu.Image.{default_config, booted}
use for_ysyx_self_store_by_h.Nemu.Cpu.{exec_once}
use for_ysyx_self_store_by_h.Nemu.Cpu as Cpu_exec
use for_ysyx_self_store_by_h.Nemu.Difftest.{
  Cpu, Ref, Diff, cpu_of, checkregs, difftest_step, difftest_skip_dut, difftest_skip_ref,
  init_difftest, isa_difftest_checkregs,
}
use for_ysyx_self_store_by_h.Nemu.Difftest.Loop.{Tested}

abbrev walker : Ref Cpu
walker = record {
  memcpy = λ start pmem i n r. r;
  regs_to_dut = λ r. r;
  regs_to_ref = λ regs r. regs;
  exec = λ n r. record r { pc = r.pc + 4 * n };
  init = λ port r. r;
}

abbrev at_pc : ℕ → Machine (Unit {0})
at_pc pc = record {
  gpr = λ i. 0;
  pc = pc;
  nemu = record { state = running; halt_pc = 0; halt_ret = 0 };
  bus = record { pmem = λ i. 0; maps = []; io = record { io_space = λ i. 0; devices = tt } };
}

abbrev ready : Diff Cpu (Unit {0})
ready = record {
  is_skip_ref = false;
  skip_dut_nr_inst = 0;
  ref = cpu_of (at_pc 100);
  machine = at_pc 100;
}

-- difftest_skip_dut lets the reference run two instructions ahead, to 108.
abbrev ahead : Diff Cpu (Unit {0})
ahead = difftest_skip_dut walker 2 3 ready

goes_ahead : (ahead.ref.pc ≡ 108) × (ahead.skip_dut_nr_inst ≡ 3)
unfolding difftest_skip_dut
goes_ahead = (refl, refl)

-- Behind difftest_skip_ref, the reference gets the registers of the machine instead.
skips_ref :
    difftest_step walker 100 300 (record (difftest_skip_ref walker ready) { machine = at_pc 300 })
    ≡ ok (record ready { ref = cpu_of (at_pc 300); machine = at_pc 300 })
unfolding difftest_step difftest_skip_ref
skips_ref = refl

-- The comparison of riscv32 finds fault with equal registers too.
riscv32_aborts :
    difftest_step walker 100 104 (record ready { machine = at_pc 104 })
    ≡ ok (record ready {
      ref = cpu_of (at_pc 104);
      machine = record (at_pc 104) { nemu = record { state = abort; halt_pc = 100; halt_ret = 0 } };
    })
unfolding difftest_step checkregs isa_difftest_checkregs
riscv32_aborts = refl

abbrev no_library : Result (Ref Cpu × Cpu)
no_library = init_difftest default_config none 20 1234 (at_pc 100) ready.ref

no_library_fails : no_library ≡ failed assertion
unfolding init_difftest
no_library_fails = refl

abbrev tested : Tested Cpu (Unit {0})
tested = record {
  diff = record ready { machine = started; ref = cpu_of started };
  nr_guest_inst = 0;
}
  where
    started : Machine (Unit {0})
    started = record (booted (at_pc 0) 0).machine {
      nemu = record { state = running; halt_pc = 0; halt_ret = 0 };
    }
