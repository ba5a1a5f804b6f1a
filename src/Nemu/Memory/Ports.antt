-- ===== src/Nemu/Memory/Ports.antt =====
-- The table of port-I/O maps: add_pio_map does not look for overlaps, so the first region that has a
-- port serves it.
use for_ysyx_self_store_by_h.Base.{
  ℕ, ◌+◌, ◌-◌, ◌^◌, ◌<◌, ◌≤◌, true, false, ◌≡◌, refl, ap, ◌∙◌, subst, arith, ltb, leb, u32, Option,
  some, List, [], ◌∷◌, ◌++◌, length, get_elem?,
}
use for_ysyx_self_store_by_h.Nemu.Result.{
  Result, ok, assertion, check, ◌>>=◌, ◌>>◌, >>-eq-ok, eq_of_ok, check-eq-ok,
}
use for_ysyx_self_store_by_h.Nemu.Memory.Map.{
  Io, IoMap, Callback, map_inside, find_mapid_by_addr, map_read, map_write,
}
use for_ysyx_self_store_by_h.Nemu.Memory.Mmio.{nr_map_max}
use for_ysyx_self_store_by_h.Nemu.Memory.PortIo.{
  add_pio_map, port_map, pio_read, pio_write, port_io_space_max,
}
use for_ysyx_self_store_by_h.Nemu.Memory.Table.{IsOutside}

module _ {W : Type 0} where
  find-last :
      (maps : List (IoMap W)) (i addr : ℕ) (m : IoMap W)
      → IsOutside maps addr
      → map_inside m addr ≡ true
      → find_mapid_by_addr (maps ++ m ∷ []) i addr ≡ some (i + length maps)
  unfolding find_mapid_by_addr
  find-last [] i addr m out has = rw has (ap some (omega arith))
  find-last (n ∷ maps) i addr m out has =
      let missed : map_inside n addr ≡ false = ground (arith, out.0) in
      rw missed (find-last maps (i + 1) addr m out.1 has ∙ ap some (omega arith))

  get_elem?-last :
      (maps : List (IoMap W)) (m : IoMap W) → get_elem? (maps ++ m ∷ []) (length maps) ≡ some m
  get_elem?-last [] m = refl
  get_elem?-last (n ∷ maps) m = get_elem?-last maps m

  abbrev ports : ℕ → ℕ → ℕ → Option (Callback W) → IoMap W
  ports addr space len callback = record {
    low = addr;
    high = u32 (addr + len + 2 ^ 32 - 1);
    space = space;
    callback = callback;
  }

  add_pio_map-appends :
      (maps maps' : List (IoMap W)) (addr space len : ℕ) (callback : Option (Callback W))
      → add_pio_map maps addr space len callback ≡ ok maps'
      → (maps ++ ports addr space len callback ∷ [] ≡ maps')
        × (u32 (addr + len) ≤ port_io_space_max)
  unfolding add_pio_map
  add_pio_map-appends maps maps' addr space len callback h =
      let appended : Result (List (IoMap W)) = ok (maps ++ ports addr space len callback ∷ []) in
      let fits = check (leb (u32 (addr + len)) port_io_space_max) assertion in
      let counted =
        >>-eq-ok (check (ltb (length maps) nr_map_max) assertion) (fits >> appended) h in
      let fitted = >>-eq-ok fits appended counted.1 in
      (
        eq_of_ok fitted.1,
        ground (arith, check-eq-ok (leb (u32 (addr + len)) port_io_space_max) assertion fitted.0),
      )

  -- Behind a registration that succeeds, an access of `n` bytes at a port of the new range goes to
  -- its map, unless an earlier range has the port; the access and the range are within the 65535
  -- ports.
  pio-registered :
      (maps maps' : List (IoMap W)) (addr space len port n value : ℕ)
      (callback : Option (Callback W)) (io : Io W)
      → add_pio_map maps addr space len callback ≡ ok maps'
      → addr + len < 2 ^ 32
      → IsOutside maps port
      → addr ≤ port
      → port < addr + len
      → port + n ≤ port_io_space_max
      → (m : IoMap W) × (m
          ≡ record { low = addr; high = addr + len - 1; space = space; callback = callback })
        × (pio_read maps' port n io ≡ map_read port n (some m) io)
        × (pio_write maps' port n value io ≡ map_write port n value (some m) io)
  unfolding pio_read pio_write
  pio-registered maps maps' addr space len port n value callback io h narrow out lo hi fits =
      let m = ports addr space len callback in
      let (appended, _) = add_pio_map-appends maps maps' addr space len callback h in
      let end : u32 (addr + len + 2 ^ 32 - 1) ≡ addr + len - 1 = omega arith in
      let has : map_inside m port ≡ true = ground (arith, end) in
      let found = find-last maps 0 port m out has in
      let here : 0 + length maps ≡ length maps = omega arith in
      let at_last = get_elem?-last maps m in
      let mapped : port_map maps' port n ≡ ok m =
        subst (λ t. port_map t port n ≡ ok m) appended (ground (arith, found, here, at_last)) in
      (
        m,
        ap (λ e. record m { high = e }) end,
        ap (λ (r : Result (IoMap W)). r >>= λ x. map_read port n (some x) io) mapped,
        ap (λ (r : Result (IoMap W)). r >>= λ x. map_write port n value (some x) io) mapped,
      )
