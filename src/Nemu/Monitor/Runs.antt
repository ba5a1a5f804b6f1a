-- ===== src/Nemu/Monitor/Runs.antt =====
-- What main of ysyx-workbench/nemu/src/nemu-main.c returns in batch mode without an image.
use for_ysyx_self_store_by_h.Base.{ℕ, ◌-◌, ◌^◌, Bool, false, List, [], ◌∷◌, ◌≡◌, refl}
use for_ysyx_self_store_by_h.Nemu.Result.{ok}
use for_ysyx_self_store_by_h.Nemu.State.{stop}
use for_ysyx_self_store_by_h.Nemu.Memory.Paddr.{init_mem}
use for_ysyx_self_store_by_h.Nemu.Riscv32.{Machine, init_isa, restart}
use for_ysyx_self_store_by_h.Nemu.Devices.World.{World}
use for_ysyx_self_store_by_h.Nemu.Cpu.Image.{default_config, image-good_trap}
use for_ysyx_self_store_by_h.Nemu.Sdb.Watchpoint.{Pool}
use for_ysyx_self_store_by_h.Nemu.Sdb.Commands.{cmd_c}
use for_ysyx_self_store_by_h.Nemu.Sdb.Mainloop.{sdb_mainloop}
use for_ysyx_self_store_by_h.Nemu.Devices.Board.{Options}
use for_ysyx_self_store_by_h.Nemu.Monitor.{
  batch, parse_args, Setup, Outside, init_rand, load_img, init_log, set_up, init_monitor, nemu_main,
}

-- The default configuration.
abbrev pub default_setup : Options → Bool → Setup
default_setup options mem_random = record {
  config = default_config;
  options = options;
  mem_random = mem_random;
  difftest = false;
}

-- In the default configuration, `nemu -b` with no image, from the state that the program starts in,
-- returns 0, whatever the memory and the registers hold, and whatever lines wait for the debugger: it
-- runs the built-in image to its end.
pub nemu_main-batch :
    {R : Type 0} (options : Options) (mem_random : Bool) (out : Outside R) (lines : List (List ℕ))
    (m : Machine World) (pool : Pool)
    → m.nemu ≡ record { state = stop; halt_pc = 0; halt_ret = 0 }
    → nemu_main (default_setup options mem_random) out (batch ∷ []) lines m pool ≡ ok 0
unfolding nemu_main init_monitor parse_args set_up load_img init_log sdb_mainloop cmd_c init_isa
    restart
nemu_main-batch options mem_random out lines m pool off =
    let m0 = init_rand m in
    let bus = init_mem default_config mem_random out.rand m0.bus in
    let k : ℕ = 2 ^ 64 - 5 in
    let (r, ran, _, _, good) = image-good_trap (record m0 { bus = bus }) k in
    rw off (rw ran (rw good refl))
