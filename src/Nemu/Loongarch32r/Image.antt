-- ===== src/Nemu/Loongarch32r/Image.antt =====
-- NEMU for loongarch32r on its built-in image, ysyx-workbench/nemu/src/isa/loongarch32r/init.c.
use for_ysyx_self_store_by_h.Base.{ℕ, suc, ◌≡◌, refl, load32, store32}
use for_ysyx_self_store_by_h.Nemu.Result.{ok}
use for_ysyx_self_store_by_h.Nemu.State.{end}
use for_ysyx_self_store_by_h.Nemu.Pattern.{pattern_decode}
use for_ysyx_self_store_by_h.Nemu.Memory.Mmio.{in_pmem}
use for_ysyx_self_store_by_h.Nemu.Memory.Host.{host_read, host_write}
use for_ysyx_self_store_by_h.Nemu.Memory.Paddr.{paddr_read, paddr_write}
use for_ysyx_self_store_by_h.Nemu.Riscv32.{Machine, set_nemu_state}
use for_ysyx_self_store_by_h.Nemu.Isa.{isa_step, isa_execute, started}
use for_ysyx_self_store_by_h.Nemu.Cpu.Image.{default_config}
use for_ysyx_self_store_by_h.Nemu.Loongarch32r.{
  decode_operand, exec_pcaddu12i, exec_ld_w, exec_st_w, exec_pattern, decode_exec, isa_exec_once,
  restart, init_isa,
}

-- In the default configuration, started on the built-in image of loongarch32r, whatever the memory, the
-- registers and the devices hold, the loop with at least four instructions ends with halt_ret 0 at
-- the fourth, break. The second has cleared the word behind the program, which the third reads.
loongarch32r-good_trap :
    {W : Type 0} (m : Machine W) (k : ℕ)
    → (m' : Machine W) × (isa_execute
          (isa_exec_once default_config)
          (suc (suc (suc (suc k))))
          (started (init_isa default_config m))
        ≡ ok m')
      × (m'.nemu ≡ record { state = end; halt_pc = 0x8000000c; halt_ret = 0 })
      × (m'.bus.pmem 16 ≡ 0)
unfolding isa_execute isa_step isa_exec_once decode_exec exec_pattern exec_pcaddu12i exec_ld_w
    exec_st_w set_nemu_state init_isa restart decode_operand pattern_decode paddr_read paddr_write
    in_pmem host_read host_write load32 store32
loongarch32r-good_trap m k = (_, refl, refl, refl)
