-- ===== src/Nemu/X86/Image.antt =====
-- NEMU for x86 on its built-in image, ysyx-workbench/nemu/src/isa/x86/init.c, and reg_test of reg.c.
use for_ysyx_self_store_by_h.Base.{
  ℕ, suc, ◌%◌, ◌^◌, ◌≡◌, ◌≢◌, refl, arith, true, false, some, ◌==◌, load8, load32, store8, store32,
}
use for_ysyx_self_store_by_h.Nemu.Result.{ok, failed, assertion}
use for_ysyx_self_store_by_h.Nemu.State.{running, end}
use for_ysyx_self_store_by_h.Nemu.Pattern.{pattern_decode}
use for_ysyx_self_store_by_h.Nemu.Memory.Mmio.{Config, in_pmem}
use for_ysyx_self_store_by_h.Nemu.Memory.Host.{load16, store16, host_read, host_write}
use for_ysyx_self_store_by_h.Nemu.Memory.Paddr.{paddr_read, paddr_write}
use for_ysyx_self_store_by_h.Nemu.X86.{
  X86, reg_read, reg_write, test_words, reg_test, restart, init_isa,
}
use for_ysyx_self_store_by_h.Nemu.X86.Decode.{x86_inst_fetch, load_addr, decode_rm, decode_operand}
use for_ysyx_self_store_by_h.Nemu.X86.Exec.{
  find_row, match_row, exec_body, exec_opcode, exec_from, exec_once, execute,
}

-- The memory of the default configuration for x86.
abbrev pub x86_config : Config
x86_config = record { mbase = 0; msize = 0x8000000; pc_reset_offset = 0x100000; device = false }

abbrev pub started : {W : Type 0} → X86 W → X86 W
started m = record m { nemu = record { state = running; halt_pc = 0; halt_ret = 0 } }

-- In the default configuration with CONFIG_DETERMINISTIC, started on the built-in image of x86,
-- whatever the memory and the registers hold, the loop with at least eight instructions ends at the
-- eighth, int3. The halt_ret is what the field cpu.eax held before, which no instruction has changed,
-- although the seventh one has put 0 in register 0.
pub x86-trap :
    {W : Type 0} (m : X86 W) (sample : ℕ → ℕ) (pc_sample k : ℕ)
    → (booted : X86 W) × (m' : X86 W) × (init_isa x86_config true sample pc_sample m ≡ ok booted)
      × (execute x86_config (suc (suc (suc (suc (suc (suc (suc (suc k)))))))) (started booted)
          ≡ some (ok m'))
      × (m'.nemu ≡ record { state = end; halt_pc = 0x100026; halt_ret = m.named 0 })
      × (m'.gpr_32 0 ≡ 0)
unfolding execute exec_once exec_from exec_opcode match_row exec_body find_row pattern_decode
    decode_operand decode_rm load_addr x86_inst_fetch reg_read reg_write init_isa restart paddr_read
    paddr_write in_pmem host_read host_write load8 load16 load32 store8 store16 store32
x86-trap m sample pc_sample k = (_, _, refl, refl, refl, refl)

-- Without CONFIG_DETERMINISTIC, init_isa fails the test of the registers wherever the lower half of
-- the first sample is not what gpr[0]._16 holds from before: a write of 32 bits does not reach it.
init_isa-reg_test :
    {W : Type 0} (c : Config) (m : X86 W) (sample : ℕ → ℕ) (pc_sample : ℕ)
    → m.gpr_16 0 ≢ sample 0 % 2 ^ 16
    → init_isa c false sample pc_sample m ≡ failed assertion
unfolding init_isa reg_test test_words reg_write
init_isa-reg_test c m sample pc_sample differs =
    let unequal : (m.gpr_16 0 == sample 0 % 2 ^ 16) ≡ false = ground (arith, differs) in
    rw unequal refl
