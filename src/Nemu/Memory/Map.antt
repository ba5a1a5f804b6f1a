-- ===== src/Nemu/Memory/Map.antt =====
-- ysyx-workbench/nemu/src/device/io/map.c and include/device/map.h: I/O spaces carved out of one
-- host array, and accesses to them through an IOMap with a callback into its device. Without
-- CONFIG_DIFFTEST, the default, difftest_skip_ref does nothing.
use for_ysyx_self_store_by_h.Base.{
  ℕ, ◌+◌, ◌-◌, ◌*◌, ◌/◌, ◌^◌, Bool, ◌&&◌, Option, none, some, List, [], ◌∷◌, if◌then◌else◌, ltb,
  leb,
}
use for_ysyx_self_store_by_h.Nemu.Result.{
  Result, ok, failed, assertion, out_of_bound, check, ◌>>=◌, ◌>>◌,
}
use for_ysyx_self_store_by_h.Nemu.Memory.Host.{host_read, host_write}

-- IO_SPACE_MAX and PAGE_SIZE.
abbrev pub io_space_max : ℕ
io_space_max = 32 * 1024 * 1024

abbrev pub page_size : ℕ
page_size = 2 ^ 12

-- new_space: `p_space`, as an index into io_space, before and after, and the index of the new space.
-- `& ~PAGE_MASK` clears the low 12 bits.
unfoldable pub new_space : ℕ → ℕ → Result (ℕ × ℕ)
new_space p_space size =
    let size' = (size + (page_size - 1)) / page_size * page_size in
    let p_space' = p_space + size' in
    if ltb p_space' io_space_max then ok (p_space, p_space') else failed assertion

-- The host array io_space and the state of the devices, `W`, which a callback may change.
pub record Io (W : Type 0) : Type 0 where
  pub io_space : ℕ → ℕ
  pub devices : W

-- io_callback_t: the offset, the length, and whether the access is a write.
abbrev pub Callback : Type 0 → Type 0
Callback W = ℕ → ℕ → Bool → Io W → Result (Io W)

-- IOMap; `space` is an index into io_space.
pub record IoMap (W : Type 0) : Type 0 where
  pub low : ℕ
  pub high : ℕ
  pub space : ℕ
  pub callback : Option (Callback W)

module _ {W : Type 0} where
  abbrev pub map_inside : IoMap W → ℕ → Bool
  map_inside m addr = leb m.low addr && leb addr m.high

  -- find_mapid_by_addr from index `i` on; `none` is the result -1.
  unfoldable pub find_mapid_by_addr : List (IoMap W) → ℕ → ℕ → Option ℕ
  find_mapid_by_addr [] i addr = none
  find_mapid_by_addr (m ∷ ms) i addr =
      let rest = find_mapid_by_addr ms (i + 1) addr in if map_inside m addr then some i else rest

  -- check_bound, for a map pointer that may be NULL.
  abbrev pub check_bound : Option (IoMap W) → ℕ → Result (IoMap W)
  check_bound none addr = failed (out_of_bound addr)
  check_bound (some m) addr =
      if leb addr m.high && leb m.low addr then ok m else failed (out_of_bound addr)

  abbrev pub invoke_callback : Option (Callback W) → ℕ → ℕ → Bool → Io W → Result (Io W)
  invoke_callback none offset len is_write io = ok io
  invoke_callback (some c) offset len is_write io = c offset len is_write io

  -- map_read: the callback prepares the data, then they are read.
  unfoldable pub map_read : ℕ → ℕ → Option (IoMap W) → Io W → Result (ℕ × Io W)
  map_read addr len map io = do
    check (leb 1 len && leb len 8) assertion
    m ← check_bound map addr
    let offset = addr - m.low
    io' ← invoke_callback m.callback offset len Bool.false io
    ret ← host_read io_space_max io'.io_space (m.space + offset) len
    ok (ret, io')

  -- map_write: the data are written, then the callback sees them.
  unfoldable pub map_write : ℕ → ℕ → ℕ → Option (IoMap W) → Io W → Result (Io W)
  map_write addr len value map io = do
    check (leb 1 len && leb len 8) assertion
    m ← check_bound map addr
    let offset = addr - m.low
    space ← host_write io_space_max io.io_space (m.space + offset) len value
    invoke_callback m.callback offset len Bool.true (record io { io_space = space })
