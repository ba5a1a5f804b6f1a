-- ===== src/Nemu/Memory/Mmio.antt =====
-- ysyx-workbench/nemu/src/device/io/mmio.c: the table of MMIO maps.
use for_ysyx_self_store_by_h.Base.{
  ℕ, ◌+◌, ◌-◌, ◌^◌, Bool, not, ◌&&◌, ◌||◌, Option, none, some, List, [], ◌∷◌, ◌++◌, if◌then◌else◌,
  ltb, leb, u32, length, get_elem?,
}
use for_ysyx_self_store_by_h.Nemu.Result.{Result, ok, failed, assertion, mmio_overlap, check, ◌>>◌}
use for_ysyx_self_store_by_h.Nemu.Memory.Map.{
  Io, IoMap, Callback, find_mapid_by_addr, map_read, map_write,
}

-- CONFIG_MBASE, CONFIG_MSIZE and CONFIG_PC_RESET_OFFSET, and whether CONFIG_DEVICE is set.
pub record Config : Type 0 where
  pub mbase : ℕ
  pub msize : ℕ
  pub pc_reset_offset : ℕ
  pub device : Bool

-- in_pmem of include/memory/paddr.h: the difference is a uint32_t.
unfoldable pub in_pmem : Config → ℕ → Bool
in_pmem c addr = ltb (u32 (addr + 2 ^ 32 - c.mbase)) c.msize

-- NR_MAP
abbrev pub nr_map_max : ℕ
nr_map_max = 16

module _ {W : Type 0} where
  -- The loop over the maps that are there: the first one that overlaps is reported.
  unfoldable pub check_overlap : List (IoMap W) → ℕ → ℕ → Result (Unit {0})
  check_overlap [] left right = ok tt
  check_overlap (m ∷ ms) left right =
      let rest = check_overlap ms left right in
      if leb left m.high && leb m.low right then failed (mmio_overlap left right) else rest

  unfoldable pub add_mmio_map :
      Config → List (IoMap W) → ℕ → ℕ → ℕ → Option (Callback W) → Result (List (IoMap W))
  add_mmio_map c maps addr space len callback = do
    check (ltb (length maps) nr_map_max) assertion
    let left = addr
    let right = u32 (addr + len + 2 ^ 32 - 1)
    check (not (in_pmem c left || in_pmem c right)) (mmio_overlap left right)
    check_overlap maps left right
    ok (maps ++ record { low = left; high = right; space = space; callback = callback } ∷ [])

  -- fetch_mmio_map; `none` is NULL.
  unfoldable pub fetch_mmio_map : List (IoMap W) → ℕ → Option (IoMap W)
  fetch_mmio_map maps addr = elim (find_mapid_by_addr maps 0 addr) [
    | none ↦ none
    | some mapid ↦ get_elem? maps mapid
  ]

  unfoldable pub mmio_read : List (IoMap W) → ℕ → ℕ → Io W → Result (ℕ × Io W)
  mmio_read maps addr len io = map_read addr len (fetch_mmio_map maps addr) io

  unfoldable pub mmio_write : List (IoMap W) → ℕ → ℕ → ℕ → Io W → Result (Io W)
  mmio_write maps addr len value io = map_write addr len value (fetch_mmio_map maps addr) io
