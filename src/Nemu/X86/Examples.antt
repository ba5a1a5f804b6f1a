-- ===== src/Nemu/X86/Examples.antt =====
-- The theorems on x86 at concrete machines, and tests.
use for_ysyx_self_store_by_h.Base.{ℕ, ◌+◌, ◌≤◌, ◌≡◌, refl, arith, true, false, some, [], update}
use for_ysyx_self_store_by_h.Base.{load8}
use for_ysyx_self_store_by_h.Nemu.Result.{Result, ok, failed, assertion, ◌>>=◌}
use for_ysyx_self_store_by_h.Nemu.State.{stop, end}
use for_ysyx_self_store_by_h.Nemu.Pattern.{pattern_decode}
use for_ysyx_self_store_by_h.Nemu.Memory.Mmio.{in_pmem}
use for_ysyx_self_store_by_h.Nemu.Memory.Host.{host_read}
use for_ysyx_self_store_by_h.Nemu.Memory.Paddr.{paddr_read}
use for_ysyx_self_store_by_h.Nemu.X86.{X86, init_isa, reg_read, reg_write}
use for_ysyx_self_store_by_h.Nemu.X86.Decode.{Decode, x86_inst_fetch, decode_rm, decode_operand}
use for_ysyx_self_store_by_h.Nemu.X86.Exec.{
  find_row, match_row, exec_body, exec_opcode, exec_from, exec_once, execute,
}
use for_ysyx_self_store_by_h.Nemu.X86.Prefix.{exec_once-total}
use for_ysyx_self_store_by_h.Nemu.X86.Image.{x86_config, started, x86-trap}

-- A machine whose memory holds nothing but prefixes.
abbrev prefixes : X86 (Unit {0})
prefixes = record {
  gpr_32 = λ i. 5;
  gpr_16 = λ i. 0;
  gpr_8 = λ i j. 0;
  named = λ i. 7;
  pc = 0x100000;
  nemu = record { state = stop; halt_pc = 0; halt_ret = 0 };
  bus = record { pmem = λ i. 0x66; maps = []; io = record { io_space = λ i. 0; devices = tt } };
}

exec_once-total_example :
    (r : Result (Decode × X86 (Unit {0}))) × (exec_once x86_config prefixes
      ≡ some (r >>= λ (s, m'). ok (record m' { pc = s.dnpc })))
    × ((k : ℕ)
        → 16 ≤ k
        → exec_from x86_config k false
            (record { pc = 0x100000; snpc = 0x100000; dnpc = 0 })
            prefixes
          ≡ some r)
exec_once-total_example = exec_once-total x86_config prefixes (omega arith)

-- The sixteenth prefix is one byte too much.
too_many_prefixes : exec_once x86_config prefixes ≡ some (failed assertion)
unfolding exec_once exec_from exec_opcode match_row exec_body find_row pattern_decode decode_operand
    x86_inst_fetch paddr_read in_pmem host_read load8
too_many_prefixes = refl

x86-trap_example :
    (booted : X86 (Unit {0})) × (m' : X86 (Unit {0})) × (init_isa x86_config true
        (λ i. i)
        9
        prefixes
      ≡ ok booted)
    × (execute x86_config 20 (started booted) ≡ some (ok m'))
    × (m'.nemu ≡ record { state = end; halt_pc = 0x100026; halt_ret = 7 })
    × (m'.gpr_32 0 ≡ 0)
x86-trap_example = x86-trap prefixes (λ i. i) 9 12

-- mov %ecx, %edx, with and without the prefix.
abbrev holding : ℕ → ℕ → ℕ → X86 (Unit {0})
holding a b c = record prefixes {
  gpr_32 = λ i. i;
  gpr_16 = λ i. i + 20;
  bus = record prefixes.bus {
    pmem = update (update (update (λ i. 0) 0x100000 a) 0x100001 b) 0x100002 c;
  };
}

moves_32 :
    exec_once x86_config (holding 0x89 0xca 0)
    ≡ some (ok (record (holding 0x89 0xca 0) { gpr_32 = update (λ i. i) 2 1; pc = 0x100002 }))
unfolding exec_once exec_from exec_opcode match_row exec_body find_row pattern_decode decode_operand
    decode_rm x86_inst_fetch reg_read reg_write paddr_read in_pmem host_read load8
moves_32 = refl

moves_16 :
    exec_once x86_config (holding 0x66 0x89 0xca)
    ≡ some
        (ok (record (holding 0x66 0x89 0xca) { gpr_16 = update (λ i. i + 20) 2 21; pc = 0x100003 }))
unfolding exec_once exec_from exec_opcode match_row exec_body find_row pattern_decode decode_operand
    decode_rm x86_inst_fetch reg_read reg_write paddr_read in_pmem host_read load8
moves_16 = refl
