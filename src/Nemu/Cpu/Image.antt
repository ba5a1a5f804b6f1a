-- ===== src/Nemu/Cpu/Image.antt =====
-- NEMU with no image given: init_isa of isa/riscv32/init.c and then cpu_exec, in the default
-- configuration.
use for_ysyx_self_store_by_h.Base.{ℕ, suc, ◌≡◌, refl, false}
use for_ysyx_self_store_by_h.Base.{load8, load32, store8}
use for_ysyx_self_store_by_h.Nemu.Memory.Mmio.{in_pmem}
use for_ysyx_self_store_by_h.Nemu.Memory.Host.{host_read, host_write}
use for_ysyx_self_store_by_h.Nemu.Memory.Paddr.{paddr_read, paddr_write}
use for_ysyx_self_store_by_h.Nemu.Pattern.{pattern_decode}
use for_ysyx_self_store_by_h.Nemu.Result.{ok}
use for_ysyx_self_store_by_h.Nemu.State.{stop, end, is_exit_status_bad}
use for_ysyx_self_store_by_h.Nemu.Memory.Mmio.{Config}
use for_ysyx_self_store_by_h.Nemu.Riscv32.{
  Machine, init_isa, restart, set_nemu_state, exec_auipc, exec_lbu, exec_sb, exec_pattern,
  decode_exec, isa_exec_once, decode_operand,
}
use for_ysyx_self_store_by_h.Nemu.Cpu.{Run, exec_once, execute, cpu_exec}

-- MBASE, MSIZE and PC_RESET_OFFSET of the default configuration, without devices.
abbrev pub default_config : Config
default_config = record {
  mbase = 0x80000000;
  msize = 0x8000000;
  pc_reset_offset = 0;
  device = false;
}

abbrev pub booted : {W : Type 0} → Machine W → ℕ → Run W
booted m n = record {
  machine =
      init_isa default_config
        (record m { nemu = record { state = stop; halt_pc = 0; halt_ret = 0 } });
  nr_guest_inst = n;
}

-- In the default configuration, started on the built-in image, whatever the memory, the registers and the devices hold, cpu_exec
-- with at least four instructions returns: it has executed four of them, the emulator has ended
-- with halt_ret 0 at the ebreak ("HIT GOOD TRAP"), and the exit status is good.
pub image-good_trap :
    {W : Type 0} (m : Machine W) (k : ℕ)
    → (r : Run W) × (cpu_exec default_config (suc (suc (suc (suc k)))) (booted m 0) ≡ ok r)
      × (r.machine.nemu ≡ record { state = end; halt_pc = 0x8000000c; halt_ret = 0 })
      × (r.nr_guest_inst ≡ 4)
      × (is_exit_status_bad r.machine.nemu ≡ false)
unfolding cpu_exec execute exec_once isa_exec_once decode_exec exec_pattern exec_auipc exec_lbu
    exec_sb set_nemu_state init_isa restart decode_operand pattern_decode is_exit_status_bad
    paddr_read paddr_write in_pmem host_read host_write load8 load32 store8
image-good_trap m k = (_, refl, refl, refl, refl)
