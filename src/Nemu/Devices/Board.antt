-- ===== src/Nemu/Devices/Board.antt =====
-- The start of the devices of NEMU: init_device of ysyx-workbench/nemu/src/device/device.c with the
-- init function of each device, init_map of io/map.c, and vga.c and audio.c, whose devices have no
-- other code for the host yet. Without CONFIG_HAS_PORT_IO, as for riscv32.
pub mod Layout
pub mod Starts
pub mod Default
use for_ysyx_self_store_by_h.Base.{
  ℕ, ◌+◌, ◌-◌, ◌*◌, ◌^◌, Bool, ◌&&◌, Option, none, some, List, [], if◌then◌else◌, ltb, leb,
  put_word, bit_or,
}
use for_ysyx_self_store_by_h.Nemu.Result.{Result, ok, failed, assertion, check, ◌>>=◌, ◌>>◌}
use for_ysyx_self_store_by_h.Nemu.State.{NemuState}
use for_ysyx_self_store_by_h.Nemu.Keyboard.{Queue, key_none, i8042_data_io_handler}
use for_ysyx_self_store_by_h.Nemu.Memory.Map.{Io, IoMap, Callback, new_space}
use for_ysyx_self_store_by_h.Nemu.Memory.Mmio.{Config, add_mmio_map}
use for_ysyx_self_store_by_h.Nemu.Devices.World.{World, Image}
use for_ysyx_self_store_by_h.Nemu.Devices.Serial.{serial_io_handler}
use for_ysyx_self_store_by_h.Nemu.Devices.Rtc.{rtc_io_handler, timer_intr}
use for_ysyx_self_store_by_h.Nemu.Devices.Alarm.{add_alarm_handle, init_alarm}
use for_ysyx_self_store_by_h.Nemu.Devices.Card.{c_size, sdcard_io_handler}

-- The options of src/device/Kconfig.
pub record Options : Type 0 where
  pub has_serial : Bool
  pub serial_mmio : ℕ
  pub has_timer : Bool
  pub rtc_mmio : ℕ
  pub has_vga : Bool
  pub vga_ctl_mmio : ℕ
  pub fb_addr : ℕ
  pub screen_w : ℕ
  pub screen_h : ℕ
  pub vga_show_screen : Bool
  pub has_keyboard : Bool
  pub i8042_data_mmio : ℕ
  pub has_audio : Bool
  pub audio_ctl_mmio : ℕ
  pub sb_addr : ℕ
  pub sb_size : ℕ
  pub has_disk : Bool
  pub has_sdcard : Bool
  pub sdcard_ctl_mmio : ℕ

-- What the host answers: malloc, whether sigaction and setitimer succeed, and the image of the card.
pub record Host : Type 0 where
  pub malloc : Option (ℕ → ℕ)
  pub sigaction_done : Bool
  pub setitimer_done : Bool
  pub sdcard_img : Option Image

-- p_space as an index into io_space, the table of maps, the alarm handlers, and the I/O side.
pub record Board : Type 0 where
  pub p_space : ℕ
  pub maps : List (IoMap World)
  pub alarms : List (NemuState → NemuState)
  pub io : Io World

abbrev pub allocate : ℕ → Board → Result (ℕ × Board)
allocate size b = do
  (base, p_space) ← new_space b.p_space size
  ok (base, record b { p_space = p_space })

abbrev pub with_space : ((ℕ → ℕ) → ℕ → ℕ) → Board → Board
with_space f b = record b { io = record b.io { io_space = f b.io.io_space } }

-- The handler of the keyboard, on the key queue of the devices.
abbrev pub keyboard_handler : ℕ → Callback World
keyboard_handler base offset len is_write io = do
  io' ←
      i8042_data_io_handler base offset len is_write
        (record { io_space = io.io_space; devices = io.devices.keys })
  ok (record { io_space = io'.io_space; devices = record io.devices { keys = io'.devices } })

-- audio_io_handler is empty.
abbrev pub audio_io_handler : Callback World
audio_io_handler offset len is_write io = ok io

-- memset (…, 0, size).
abbrev pub clear : ℕ → ℕ → (ℕ → ℕ) → ℕ → ℕ
clear start size a j = if leb start j && ltb j (start + size) then 0 else a j

-- nr_reg words of audio.c.
abbrev pub audio_space_size : ℕ
audio_space_size = 4 * 6

module _ (c : Config) (k : Options) where
  abbrev pub add_map : ℕ → ℕ → ℕ → Option (Callback World) → Board → Result Board
  add_map addr space len callback b = do
    maps ← add_mmio_map c b.maps addr space len callback
    ok (record b { maps = maps })

  abbrev pub screen_size : ℕ
  screen_size = k.screen_w * k.screen_h * 4

  unfoldable pub init_map : Host → Board → Result Board
  init_map host b = elim (host.malloc) [
    | none ↦ failed assertion
    | some bytes ↦ ok (record b { p_space = 0; io = record b.io { io_space = bytes } })
  ]

  unfoldable pub init_serial : Board → Result Board
  init_serial b = do
    (base, b') ← allocate 8 b
    add_map k.serial_mmio base 8 (some (serial_io_handler base)) b'

  unfoldable pub init_timer : Board → Result Board
  init_timer b = do
    (base, b1) ← allocate 8 b
    b2 ← add_map k.rtc_mmio base 8 (some (rtc_io_handler base)) b1
    alarms ← add_alarm_handle timer_intr b2.alarms
    ok (record b2 { alarms = alarms })

  unfoldable pub init_vga : Board → Result Board
  init_vga b = do
    (base, b1) ← allocate 8 b
    let size_word = λ (a : ℕ → ℕ). put_word a base (bit_or (k.screen_w * 2 ^ 16) k.screen_h)
    b2 ← add_map k.vga_ctl_mmio base 8 none (with_space size_word b1)
    (vmem, b3) ← allocate screen_size b2
    b4 ← add_map k.fb_addr vmem screen_size none b3
    ok (if k.vga_show_screen then with_space (clear vmem screen_size) b4 else b4)

  unfoldable pub init_i8042 : Board → Result Board
  init_i8042 b = do
    (base, b1) ← allocate 4 b
    add_map k.i8042_data_mmio base 4 (some (keyboard_handler base))
        (with_space (λ (a : ℕ → ℕ). put_word a base key_none) b1)

  unfoldable pub init_audio : Board → Result Board
  init_audio b = do
    (base, b1) ← allocate audio_space_size b
    b2 ← add_map k.audio_ctl_mmio base audio_space_size (some audio_io_handler) b1
    (sbuf, b3) ← allocate k.sb_size b2
    add_map k.sb_addr sbuf k.sb_size none b3

  -- The body of init_disk is empty.
  abbrev pub init_disk : Board → Result Board
  init_disk b = ok b

  unfoldable pub init_sdcard : Host → Board → Result Board
  init_sdcard host b = do
    (base, b1) ← allocate 0x80 b
    b2 ← add_map k.sdcard_ctl_mmio base 0x80 (some (sdcard_io_handler base)) b1
    check (ltb c_size (2 ^ 12)) assertion
    let devices = b2.io.devices
    ok (record b2 {
      io = record b2.io {
        devices = record devices { card = record devices.card { file = host.sdcard_img } };
      };
    })

  -- IFDEF
  abbrev pub if_set : Bool → (Board → Result Board) → Board → Result Board
  if_set option init b = if option then init b else ok b

  unfoldable pub init_device : Host → Board → Result Board
  init_device host b = do
    b0 ← init_map host b
    b1 ← if_set k.has_serial init_serial b0
    b2 ← if_set k.has_timer init_timer b1
    b3 ← if_set k.has_vga init_vga b2
    b4 ← if_set k.has_keyboard init_i8042 b3
    b5 ← if_set k.has_audio init_audio b4
    b6 ← if_set k.has_disk init_disk b5
    b7 ← if_set k.has_sdcard (init_sdcard host) b6
    period ← init_alarm host.sigaction_done host.setitimer_done
    ok b7
