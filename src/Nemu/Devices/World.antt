-- ===== src/Nemu/Devices/World.antt =====
-- What the handlers of the devices of ysyx-workbench/nemu/src/device change besides their registers.
use for_ysyx_self_store_by_h.Base.{ℕ, Bool, Option, List}
use for_ysyx_self_store_by_h.Nemu.Keyboard.{Queue}
use for_ysyx_self_store_by_h.Nemu.Devices.Clock.{Clock}

-- The image of the SD card as an open file: its bytes, its size and the position in it.
pub record Image : Type 0 where
  pub bytes : ℕ → ℕ
  pub size : ℕ
  pub position : ℕ

-- The globals of sdcard.c; `file` is `none` if fp is NULL.
pub record Card : Type 0 where
  pub file : Option Image
  pub blkcnt : ℕ
  pub blk_addr : ℕ
  pub addr : ℕ
  pub write_cmd : Bool
  pub read_ext_csd : Bool

-- The clock, what the serial port has written to stderr, the key queue and the SD card.
pub record World : Type 0 where
  pub clock : Clock
  pub stderr : List ℕ
  pub keys : Queue
  pub card : Card
