-- ===== src/Nemu/Devices/Board/Default.antt =====
-- The start of the devices with the defaults of ysyx-workbench/nemu/src/device/Kconfig.
use for_ysyx_self_store_by_h.Base.{ℕ, true, false, Option, some, [], ◌∷◌, ◌≡◌, refl, length, map}
use for_ysyx_self_store_by_h.Nemu.Result.{ok}
use for_ysyx_self_store_by_h.Nemu.Memory.Map.{Io, IoMap, new_space}
use for_ysyx_self_store_by_h.Nemu.Memory.Mmio.{Config, add_mmio_map, check_overlap, in_pmem}
use for_ysyx_self_store_by_h.Nemu.Devices.World.{World, Image}
use for_ysyx_self_store_by_h.Nemu.Devices.Alarm.{add_alarm_handle, init_alarm}
use for_ysyx_self_store_by_h.Nemu.Devices.Board.{
  Options, Host, Board, init_map, init_serial, init_timer, init_vga, init_i8042, init_audio,
  init_device,
}

-- The default memory, with CONFIG_DEVICE.
abbrev pub default_config : Config
default_config = record {
  mbase = 0x80000000;
  msize = 0x8000000;
  pc_reset_offset = 0;
  device = true;
}

abbrev pub default_options : Options
default_options = record {
  has_serial = true;
  serial_mmio = 0xa00003f8;
  has_timer = true;
  rtc_mmio = 0xa0000048;
  has_vga = true;
  vga_ctl_mmio = 0xa0000100;
  fb_addr = 0xa1000000;
  screen_w = 400;
  screen_h = 300;
  vga_show_screen = true;
  has_keyboard = true;
  i8042_data_mmio = 0xa0000060;
  has_audio = true;
  audio_ctl_mmio = 0xa0000200;
  sb_addr = 0xa1200000;
  sb_size = 0x10000;
  has_disk = true;
  has_sdcard = false;
  sdcard_ctl_mmio = 0xa3000000;
}

-- A host on which everything succeeds.
abbrev pub host_with : (ℕ → ℕ) → Option Image → Host
host_with bytes img = record {
  malloc = some bytes;
  sigaction_done = true;
  setitimer_done = true;
  sdcard_img = img;
}

abbrev pub range_of : IoMap World → ℕ × ℕ
range_of m = (m.low, m.high)

-- With the default options, on a host where malloc, sigaction and setitimer succeed, init_device on
-- empty tables succeeds, whatever the memory from malloc holds: the serial port, the clock, the two
-- maps of the screen, the keyboard and the two maps of the audio device are registered, in this
-- order, and one alarm handler.
init_device-default :
    (bytes : ℕ → ℕ) (img : Option Image) (io : Io World)
    → (b : Board) × (init_device default_config default_options
          (host_with bytes img)
          (record { p_space = 0; maps = []; alarms = []; io = io })
        ≡ ok b)
      × (map range_of b.maps
          ≡ (0xa00003f8, 0xa00003ff)
            ∷ (0xa0000048, 0xa000004f)
            ∷ (0xa0000100, 0xa0000107)
            ∷ (0xa1000000, 0xa10752ff)
            ∷ (0xa0000060, 0xa0000063)
            ∷ (0xa0000200, 0xa0000217)
            ∷ (0xa1200000, 0xa120ffff)
            ∷ [])
      × (length b.alarms ≡ 1)
unfolding init_device init_map init_serial init_timer init_vga init_i8042 init_audio new_space
    add_mmio_map check_overlap in_pmem add_alarm_handle init_alarm
init_device-default bytes img io = (_, refl, refl, refl)
