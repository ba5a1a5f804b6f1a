-- ===== src/Nemu/Memory/Paddr.antt =====
-- ysyx-workbench/nemu/src/memory/paddr.c and vaddr.c: guest addresses to physical memory or to the
-- devices. The riscv32 configuration has no address translation.
use for_ysyx_self_store_by_h.Base.{ℕ, ◌+◌, ◌-◌, ◌%◌, ◌^◌, Bool, List, if◌then◌else◌, ltb, u32}
use for_ysyx_self_store_by_h.Nemu.Result.{Result, ok, failed, out_of_bound, ◌>>=◌}
use for_ysyx_self_store_by_h.Nemu.Memory.Host.{host_read, host_write}
use for_ysyx_self_store_by_h.Nemu.Memory.Map.{Io, IoMap}
use for_ysyx_self_store_by_h.Nemu.Memory.Mmio.{Config, in_pmem, mmio_read, mmio_write}

-- The array pmem, the MMIO maps, and the I/O side.
pub record Bus (W : Type 0) : Type 0 where
  pub pmem : ℕ → ℕ
  pub maps : List (IoMap W)
  pub io : Io W

-- `paddr - CONFIG_MBASE` and back, as an index into pmem.
abbrev pub guest_to_host : Config → ℕ → ℕ
guest_to_host c paddr = u32 (paddr + 2 ^ 32 - c.mbase)

abbrev pub host_to_guest : Config → ℕ → ℕ
host_to_guest c haddr = u32 (haddr + c.mbase)

-- init_mem, with CONFIG_MEM_RANDOM or without; `rand` is what rand() returns. The array pmem has a
-- fixed size, as by default.
unfoldable pub init_mem : {W : Type 0} → Config → Bool → ℕ → Bus W → Bus W
init_mem c mem_random rand b =
    if mem_random
    then record b { pmem = λ j. if ltb j c.msize then rand % 2 ^ 8 else b.pmem j }
    else b

module _ {W : Type 0} (c : Config) where
  abbrev pub pmem_read : ℕ → ℕ → Bus W → Result ℕ
  pmem_read addr len b = host_read c.msize b.pmem (guest_to_host c addr) len

  abbrev pub pmem_write : ℕ → ℕ → ℕ → Bus W → Result (Bus W)
  pmem_write addr len value b = do
    pmem ← host_write c.msize b.pmem (guest_to_host c addr) len value
    ok (record b { pmem = pmem })

  unfoldable pub paddr_read : ℕ → ℕ → Bus W → Result (ℕ × Bus W)
  paddr_read addr len b =
      if in_pmem c addr
      then (do v ← pmem_read addr len b; ok (v, b))
      else if c.device
      then (do (v, io) ← mmio_read b.maps addr len b.io; ok (v, record b { io = io }))
      else failed (out_of_bound addr)

  unfoldable pub paddr_write : ℕ → ℕ → ℕ → Bus W → Result (Bus W)
  paddr_write addr len value b =
      if in_pmem c addr
      then pmem_write addr len value b
      else if c.device
      then (do io ← mmio_write b.maps addr len value b.io; ok (record b { io = io }))
      else failed (out_of_bound addr)

  -- vaddr_ifetch and vaddr_read, which do the same, and vaddr_write.
  abbrev pub vaddr_ifetch : ℕ → ℕ → Bus W → Result (ℕ × Bus W)
  vaddr_ifetch addr len b = paddr_read addr len b

  abbrev pub vaddr_read : ℕ → ℕ → Bus W → Result (ℕ × Bus W)
  vaddr_read addr len b = paddr_read addr len b

  abbrev pub vaddr_write : ℕ → ℕ → ℕ → Bus W → Result (Bus W)
  vaddr_write addr len value b = paddr_write addr len value b
