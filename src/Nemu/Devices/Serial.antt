-- ===== src/Nemu/Devices/Serial.antt =====
-- The serial port, ysyx-workbench/nemu/src/device/serial.c, on the host.
use for_ysyx_self_store_by_h.Base.{
  ℕ, ◌+◌, ◌-◌, ◌%◌, ◌^◌, ◌<◌, Bool, true, List, [], ◌∷◌, ◌++◌, some, if◌then◌else◌, ◌==◌, ◌≡◌, refl,
  ap, ◌∙◌, sym, arith, store8, update, append_assoc, append_nil,
}
use for_ysyx_self_store_by_h.Nemu.Result.{
  Result, ok, failed, unsupported, assertion, check, ◌>>=◌, ◌>>◌,
}
use for_ysyx_self_store_by_h.Nemu.Memory.Host.{host_write}
use for_ysyx_self_store_by_h.Nemu.Memory.Map.{Io, IoMap, map_write, io_space_max}
use for_ysyx_self_store_by_h.Nemu.Memory.Inside.{map_write-inside}
use for_ysyx_self_store_by_h.Nemu.Devices.World.{World}

abbrev pub serial_putc : ℕ → World → World
serial_putc ch w = record w { stderr = w.stderr ++ ch ∷ [] }

-- The handler, for registers at `base` of io_space.
unfoldable pub serial_io_handler : ℕ → ℕ → ℕ → Bool → Io World → Result (Io World)
serial_io_handler base offset len is_write io =
    check (len == 1) assertion
    >> (if offset == 0
        then if is_write
          then ok (record io { devices = serial_putc (io.io_space base) io.devices })
          else failed unsupported
        else failed unsupported)

-- A map of the serial port, wherever it is registered.
abbrev pub serial_map : ℕ → ℕ → IoMap World
serial_map low base = record {
  low = low;
  high = low + 7;
  space = base;
  callback = some (serial_io_handler base);
}

-- One byte after the other to the data register.
abbrev write_all : ℕ → ℕ → List ℕ → Io World → Result (Io World)
write_all low base [] io = ok io
write_all low base (b ∷ bs) io =
    map_write low 1 b (some (serial_map low base)) io >>= write_all low base bs

abbrev bytes_of : List ℕ → List ℕ
bytes_of [] = []
bytes_of (b ∷ bs) = b % 2 ^ 8 ∷ bytes_of bs

host_write-byte :
    (size : ℕ) (a : ℕ → ℕ) (i v : ℕ)
    → i < size
    → host_write size a (i + 0) 1 v ≡ ok (update a i (v % 2 ^ 8))
unfolding host_write store8
host_write-byte size a i v h = ground arith

write_byte :
    (low base b : ℕ) (io : Io World)
    → base < io_space_max
    → map_write low 1 b (some (serial_map low base)) io
      ≡ ok (record {
        io_space = update io.io_space base (b % 2 ^ 8);
        devices = serial_putc (b % 2 ^ 8) io.devices;
      })
unfolding serial_io_handler
write_byte low base b io h =
    let no_offset : low - low ≡ 0 = omega arith in
    let same : (base == base) ≡ true = ground arith in
    map_write-inside low 1 (serial_map low base) io b (omega arith) (omega arith) (omega arith)
      (omega arith)
    ∙ rw no_offset (rw (host_write-byte io_space_max io.io_space base b h) (rw same refl))

-- Where the register is in io_space, writing the bytes of a text to the data register, one after the
-- other, succeeds and appends them to stderr; nothing else of the devices changes.
write_all-prints :
    (low base : ℕ) (bs : List ℕ) (io : Io World)
    → base < io_space_max
    → (space : ℕ → ℕ) × (write_all low base bs io
        ≡ ok (record {
          io_space = space;
          devices = record io.devices { stderr = io.devices.stderr ++ bytes_of bs };
        }))
write_all-prints low base [] io h = (
  io.io_space,
  ap (λ t. ok (record io { devices = record io.devices { stderr = t } }))
      (sym (append_nil io.devices.stderr)),
)
write_all-prints low base (b ∷ bs) io h =
    let io' : Io World = record {
      io_space = update io.io_space base (b % 2 ^ 8);
      devices = serial_putc (b % 2 ^ 8) io.devices;
    } in
    let (space, rest) = write_all-prints low base bs io' h in
    (
      space,
      ap (λ r. r >>= write_all low base bs) (write_byte low base b io h)
          ∙ rest
          ∙ ap (λ t. ok (record { io_space = space; devices = record io.devices { stderr = t } }))
              (append_assoc io.devices.stderr (b % 2 ^ 8 ∷ []) (bytes_of bs)),
    )
