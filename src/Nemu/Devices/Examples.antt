-- ===== src/Nemu/Devices/Examples.antt =====
-- The theorems on the devices at concrete states, and tests.
use for_ysyx_self_store_by_h.Base.{
  ℕ, ◌+◌, ◌*◌, ◌%◌, ◌^◌, ◌≡◌, refl, arith, true, false, some, List, [], ◌∷◌, codes, if◌then◌else◌,
  ltb, ◌==◌, ◌-◌, get_elem?,
}
use for_ysyx_self_store_by_h.Nemu.Result.{Result, ok, failed, unsupported, ◌>>=◌, Ensures}
use for_ysyx_self_store_by_h.Nemu.State.{running}
use for_ysyx_self_store_by_h.Nemu.Keyboard.{Queue}
use for_ysyx_self_store_by_h.Nemu.Keyboard.Fifo.{Holds}
use for_ysyx_self_store_by_h.Nemu.Memory.Map.{Io, map_read}
use for_ysyx_self_store_by_h.Nemu.Devices.Clock.{Clock, get_time, get_time_internal}
use for_ysyx_self_store_by_h.Nemu.Devices.World.{World, Card, Image}
use for_ysyx_self_store_by_h.Nemu.Devices.Serial.{serial_io_handler, serial_map}
use for_ysyx_self_store_by_h.Nemu.Devices.Card.Blocks.{write_then_read, card-roundtrip}
use for_ysyx_self_store_by_h.Nemu.Devices.Board.{Board, init_device}
use for_ysyx_self_store_by_h.Nemu.Devices.Board.Layout.{IsLaidOut}
use for_ysyx_self_store_by_h.Nemu.Devices.Board.Starts.{init_device-IsLaidOut}
use for_ysyx_self_store_by_h.Nemu.Devices.Board.Default.{default_config, default_options, host_with}
use for_ysyx_self_store_by_h.Nemu.Devices.Update.{Event, sdl_quit, other, key, Host, device_update}
use for_ysyx_self_store_by_h.Nemu.Devices.Update.Keys.{
  ticked, updated, key_codes, mode_after, PollEnds, device_update-PollEnds,
}

-- A host that is read every 10 ms.
abbrev steady : Clock
steady = record { readings = λ i. (1000 + i, i * 10000 % 1000000); calls = 3; boot_time = 0 }

abbrev no_keys : Queue
no_keys = record { slots = λ i. 0; front = 1023; rear = 1023 }

abbrev picture : Image
picture = record { bytes = λ i. i % 256; size = 2048; position = 0 }

abbrev idle : Card
idle = record {
  file = some picture;
  blkcnt = 0;
  blk_addr = 0;
  addr = 0;
  write_cmd = false;
  read_ext_csd = false;
}

abbrev world : World
world = record { clock = steady; stderr = codes "> "; keys = no_keys; card = idle }

abbrev io : Io World
io = record { io_space = λ i. 9; devices = world }

-- The serial port can not be read.
no_input : map_read 0xa00003f8 1 (some (serial_map 0xa00003f8 0x1000)) io ≡ failed unsupported
unfolding map_read serial_io_handler
no_input = refl

-- One second and 10 ms.
first_time : (get_time steady).0 ≡ 1010000
unfolding get_time get_time_internal
first_time = refl

-- Three words from block 3 on, which is half a block before the end of the image.
card-roundtrip_example :
    (io' : Io World) × (write_then_read 0xa3000000 0x2000 3 (17 ∷ 0xffffffff ∷ 5 ∷ []) io
      ≡ ok (17 ∷ 0xffffffff ∷ 5 ∷ [], io'))
card-roundtrip_example =
    card-roundtrip 0xa3000000 0x2000 3 17 (0xffffffff ∷ 5 ∷ []) io picture (omega arith) refl refl
      (omega arith) (omega arith, (omega arith, (omega arith, tt)))

abbrev empty_board : Board
empty_board = record { p_space = 0; maps = []; alarms = []; io = io }

init_device-IsLaidOut_example :
    Ensures IsLaidOut
      (init_device default_config default_options (host_with (λ i. 9) (some picture)) empty_board)
init_device-IsLaidOut_example =
    init_device-IsLaidOut default_config default_options (host_with (λ i. 9) (some picture))
      empty_board refl (omega arith) (omega arith)

no_keys-Holds : Holds no_keys []
no_keys-Holds = record {
  front_in = omega arith;
  few = omega arith;
  rear_at = refl;
  slot_at = λ i k at. nothing i k at;
}
  where
    nothing : (i k : ℕ) → get_elem? [] i ≡ some k → 0 ≡ k
    nothing i k at = cc

-- Every scancode is a key of its own, 4 aside.
abbrev keymap : ℕ → ℕ
keymap scancode = if scancode == 4 then 0 else scancode + 1

abbrev host : Host
host = record {
  last = 5;
  nemu = record { state = running; halt_pc = 0; halt_ret = 0 };
  world = world;
}

abbrev events : List Event
events = key 7 true ∷ other ∷ key 4 true ∷ key 7 false ∷ sdl_quit ∷ key 9 true ∷ []

-- The key 4 is unknown, and the key 9 comes too late.
codes_of_events : key_codes keymap events ≡ 0x8008 ∷ 8 ∷ []
codes_of_events = refl

device_update-PollEnds_example :
    (r : Result Host) × (device_update keymap events host ≡ (
      if ltb (((get_time steady).0 + 2 ^ 64 - 5) % 2 ^ 64) 16666
      then ok (ticked host, events)
      else (r >>= λ h'. ok (h', []))))
    × PollEnds (key_codes keymap events) (mode_after events) [] (updated host) r
device_update-PollEnds_example = device_update-PollEnds keymap events host [] refl no_keys-Holds
