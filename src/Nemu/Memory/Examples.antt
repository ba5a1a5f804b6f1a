-- ===== src/Nemu/Memory/Examples.antt =====
-- The theorems on memory and on the MMIO table at the default configuration, and tests.
use for_ysyx_self_store_by_h.Base.{
  ◌≡◌, inl, refl, arith, true, none, some, [], ◌∷◌, ◌++◌, put_word, store32,
}
use for_ysyx_self_store_by_h.Nemu.Result.{ok, failed, mmio_overlap}
use for_ysyx_self_store_by_h.Nemu.Memory.Host.{host_write}
use for_ysyx_self_store_by_h.Nemu.Memory.Map.{Io, IoMap, map_read, map_write, new_space}
use for_ysyx_self_store_by_h.Nemu.Memory.Mmio.{
  Config, in_pmem, add_mmio_map, check_overlap, mmio_read, mmio_write,
}
use for_ysyx_self_store_by_h.Nemu.Memory.Paddr.{Bus, paddr_read, paddr_write}
use for_ysyx_self_store_by_h.Nemu.Memory.Access.{paddr_read-write}
use for_ysyx_self_store_by_h.Nemu.Memory.PortIo.{add_pio_map}
use for_ysyx_self_store_by_h.Nemu.Memory.Table.{IsTable, mmio-region, add_mmio_map-IsTable}

abbrev board : Config
board = record { mbase = 0x80000000; msize = 0x8000000; pc_reset_offset = 0; device = true }

abbrev no_io : Io (Unit {0})
no_io = record { io_space = λ i. 7; devices = tt }

abbrev fresh : Bus (Unit {0})
fresh = record { pmem = λ i. 0; maps = []; io = no_io }

abbrev stored : Bus (Unit {0})
stored = record fresh { pmem = put_word (λ i. 0) 0x1000 0x12345678 }

store_stores : paddr_write board 0x80001000 4 0x12345678 fresh ≡ ok stored
unfolding paddr_write in_pmem host_write store32
store_stores = refl

base_inside : in_pmem board 0x80001000 ≡ true
unfolding in_pmem
base_inside = refl

paddr_read-write_example : paddr_read board 0x80001000 4 stored ≡ ok (0x12345678, stored)
paddr_read-write_example =
    paddr_read-write board 0x80001000 4 0x12345678 fresh stored base_inside store_stores

-- The serial port, then the clock.
abbrev serial : IoMap (Unit {0})
serial = record { low = 0xa00003f8; high = 0xa00003ff; space = 0; callback = none }

abbrev clock : IoMap (Unit {0})
clock = record { low = 0xa0000048; high = 0xa000004f; space = 0x1000; callback = none }

serial_alone : IsTable (serial ∷ [])
serial_alone = record { few = omega arith; separate = (tt, tt) }

clock_added : add_mmio_map board (serial ∷ []) 0xa0000048 0x1000 8 none ≡ ok (serial ∷ clock ∷ [])
unfolding add_mmio_map check_overlap in_pmem
clock_added = refl

add_mmio_map-IsTable_example :
    (serial ∷ clock ∷ [] ≡ (serial ∷ []) ++ clock ∷ []) × IsTable (serial ∷ clock ∷ [])
add_mmio_map-IsTable_example =
    add_mmio_map-IsTable board (serial ∷ []) (serial ∷ clock ∷ []) 0xa0000048 0x1000 8 none
      serial_alone clock_added

-- A region that touches one that is there is refused.
overlap_refused :
    add_mmio_map board (serial ∷ []) 0xa00003fc 0x1000 8 none
    ≡ failed (mmio_overlap 0xa00003fc 0xa0000403)
unfolding add_mmio_map check_overlap in_pmem
overlap_refused = refl

clock_and_serial : IsTable (serial ∷ clock ∷ [])
clock_and_serial = record { few = omega arith; separate = ((inl (omega arith), tt), (tt, tt)) }

mmio-region_example :
    (mmio_read (serial ∷ clock ∷ []) 0xa000004c 4 no_io ≡ map_read 0xa000004c 4 (some clock) no_io)
    × (mmio_write (serial ∷ clock ∷ []) 0xa000004c 4 1 no_io
        ≡ map_write 0xa000004c 4 1 (some clock) no_io)
mmio-region_example =
    mmio-region (serial ∷ clock ∷ []) 1 0xa000004c 4 1 clock no_io clock_and_serial refl
      (omega arith) (omega arith)

third_space : new_space 0x2000 300 ≡ ok (0x2000, 0x3000)
unfolding new_space
third_space = refl

-- The serial port at 0x3f8, then the clock at 0x48.
abbrev serial_ports : IoMap (Unit {0})
serial_ports = record { low = 0x3f8; high = 0x3ff; space = 0; callback = none }

abbrev clock_ports : IoMap (Unit {0})
clock_ports = record { low = 0x48; high = 0x4f; space = 0x1000; callback = none }

clock_ports_added :
    add_pio_map (serial_ports ∷ []) 0x48 0x1000 8 none ≡ ok (serial_ports ∷ clock_ports ∷ [])
unfolding add_pio_map
clock_ports_added = refl
