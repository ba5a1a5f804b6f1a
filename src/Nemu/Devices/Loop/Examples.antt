-- ===== src/Nemu/Devices/Loop/Examples.antt =====
-- The theorem on SDL_QUIT at the built-in image.
use for_ysyx_self_store_by_h.Base.{
  ℕ, ◌+◌, ◌-◌, ◌%◌, ◌^◌, ◌≡◌, true, false, none, refl, arith, List, [], ◌∷◌, get_elem?, some,
  update, load32, ltb,
}
use for_ysyx_self_store_by_h.Nemu.Result.{ok, Ensures}
use for_ysyx_self_store_by_h.Nemu.State.{running, quit}
use for_ysyx_self_store_by_h.Nemu.Memory.Mmio.{in_pmem}
use for_ysyx_self_store_by_h.Nemu.Memory.Host.{host_read}
use for_ysyx_self_store_by_h.Nemu.Memory.Paddr.{paddr_read}
use for_ysyx_self_store_by_h.Nemu.Pattern.{pattern_decode}
use for_ysyx_self_store_by_h.Nemu.Riscv32.{
  Machine, init_isa, restart, exec_auipc, exec_pattern, decode_exec, isa_exec_once, decode_operand,
}
use for_ysyx_self_store_by_h.Nemu.Cpu.{has_ended, exec_once}
use for_ysyx_self_store_by_h.Nemu.Keyboard.Fifo.{Holds}
use for_ysyx_self_store_by_h.Nemu.Devices.Clock.{get_time, get_time_internal}
use for_ysyx_self_store_by_h.Nemu.Devices.World.{World}
use for_ysyx_self_store_by_h.Nemu.Devices.Board.Default.{default_config}
use for_ysyx_self_store_by_h.Nemu.Devices.Update.{Event, sdl_quit, key}
use for_ysyx_self_store_by_h.Nemu.Devices.Loop.{Busy, execute}
use for_ysyx_self_store_by_h.Nemu.Devices.Loop.Quits.{last_instruction, execute-sdl_quit}

abbrev world : World
world = record {
  clock = record { readings = λ i. (1000 + i, 0); calls = 3; boot_time = 0 };
  stderr = [];
  keys = record { slots = λ i. 0; front = 0; rear = 0 };
  card = record {
    file = none;
    blkcnt = 0;
    blk_addr = 0;
    addr = 0;
    write_cmd = false;
    read_ext_csd = false;
  };
}

abbrev powered : Machine World
powered = record {
  gpr = λ i. 5;
  pc = 0;
  nemu = record { state = running; halt_pc = 0; halt_ret = 0 };
  bus = record { pmem = λ i. 9; maps = []; io = record { io_space = λ i. 0; devices = world } };
}

abbrev first : Busy
first = record {
  run = record { machine = init_isa default_config powered; nr_guest_inst = 0 };
  last = 0;
  queued = key 7 true ∷ [];
  polls = 0;
  g_timer = 0;
}

-- Behind auipc.
abbrev second : Machine World
second =
    let m = init_isa default_config powered in
    record m { gpr = update (update m.gpr 5 0x80000000) 0 0; pc = 0x80000004 }

abbrev keymap : ℕ → ℕ
keymap scancode = scancode + 1

abbrev arrivals : ℕ → List Event
arrivals polls = sdl_quit ∷ key 9 true ∷ []

second_done : exec_once default_config first.run.machine.pc first.run.machine ≡ ok second
unfolding exec_once isa_exec_once decode_exec exec_pattern exec_auipc init_isa restart
    decode_operand pattern_decode paddr_read in_pmem host_read load32
second_done = refl

second_running : second.nemu.state ≡ running
unfolding init_isa restart
second_running = refl

is_due : ltb (((get_time second.bus.io.devices.clock).0 + 2 ^ 64 - 0) % 2 ^ 64) 16666 ≡ false
unfolding get_time get_time_internal init_isa restart
is_due = refl

nothing_held : Holds second.bus.io.devices.keys []
unfolding init_isa restart
nothing_held = record {
  front_in = omega arith;
  few = omega arith;
  rear_at = refl;
  slot_at = λ i k at. nothing i k at;
}
  where
    nothing : (i k : ℕ) → get_elem? [] i ≡ some k → 0 ≡ k
    nothing i k at = cc

execute-sdl_quit_example :
    (b : Busy) × (execute default_config keymap arrivals 100 first
      ≡ last_instruction default_config b)
    × Ensures
        (λ (ended : Busy). has_ended ended.run.machine.nemu.state ≡ true)
        (last_instruction default_config b)
    × (b.run.machine.nemu.state ≡ quit)
    × Holds b.run.machine.bus.io.devices.keys (0x8008 ∷ [])
execute-sdl_quit_example =
    execute-sdl_quit default_config keymap arrivals 98 first second [] (key 7 true ∷ arrivals 0)
      second_done second_running refl is_due nothing_held refl (omega arith)
