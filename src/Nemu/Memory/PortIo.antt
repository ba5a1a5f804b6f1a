-- ===== src/Nemu/Memory/PortIo.antt =====
-- ysyx-workbench/nemu/src/device/io/port-io.c: the table of port-I/O maps.
use for_ysyx_self_store_by_h.Base.{
  ℕ, ◌+◌, ◌-◌, ◌^◌, Option, none, some, List, [], ◌∷◌, ◌++◌, if◌then◌else◌, ltb, leb, u32, length,
  get_elem?,
}
use for_ysyx_self_store_by_h.Nemu.Result.{Result, ok, failed, assertion, check, ◌>>=◌, ◌>>◌}
use for_ysyx_self_store_by_h.Nemu.Memory.Map.{
  Io, IoMap, Callback, find_mapid_by_addr, map_read, map_write,
}
use for_ysyx_self_store_by_h.Nemu.Memory.Mmio.{nr_map_max}

abbrev pub port_io_space_max : ℕ
port_io_space_max = 65535

module _ {W : Type 0} where
  -- `addr` is a uint16_t and `len` a uint32_t, so `addr + len` is taken modulo 2 ^ 32.
  unfoldable pub add_pio_map :
      List (IoMap W) → ℕ → ℕ → ℕ → Option (Callback W) → Result (List (IoMap W))
  add_pio_map maps addr space len callback = do
    check (ltb (length maps) nr_map_max) assertion
    check (leb (u32 (addr + len)) port_io_space_max) assertion
    ok (
        maps
        ++ record {
          low = addr;
          high = u32 (addr + len + 2 ^ 32 - 1);
          space = space;
          callback = callback;
        }
          ∷ [])

  -- `addr + len - 1 < PORT_IO_SPACE_MAX` is a test on int, for a length of at least 1.
  abbrev pub port_map : List (IoMap W) → ℕ → ℕ → Result (IoMap W)
  port_map maps addr len =
      if ltb (addr + len) (port_io_space_max + 1)
      then elim (find_mapid_by_addr maps 0 addr) [
        | none ↦ failed assertion
        | some mapid ↦ elim (get_elem? maps mapid) [ none ↦ failed assertion | some m ↦ ok m ]
      ]
      else failed assertion

  unfoldable pub pio_read : List (IoMap W) → ℕ → ℕ → Io W → Result (ℕ × Io W)
  pio_read maps addr len io = do m ← port_map maps addr len; map_read addr len (some m) io

  unfoldable pub pio_write : List (IoMap W) → ℕ → ℕ → ℕ → Io W → Result (Io W)
  pio_write maps addr len value io = do
    m ← port_map maps addr len
    map_write addr len value (some m) io
