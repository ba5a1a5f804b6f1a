-- ===== src/Nemu/Memory/Table.antt =====
-- The table of MMIO maps: its regions are disjoint, so an address leads to at most one device.
use for_ysyx_self_store_by_h.Base.{
  ℕ, zero, suc, ◌+◌, ◌-◌, ◌%◌, ◌^◌, ◌<◌, ◌≤◌, true, false, not, ◌&&◌, ◌||◌, ◌≡◌, ◌⊎◌, inl, inr,
  refl, ap, sym, ◌∙◌, arith, leb, ltb, u32, Option, some, none, Bool-cases, List, [], ◌∷◌, ◌++◌,
  length, length-append, get_elem?, eq_of_some, subst,
}
use for_ysyx_self_store_by_h.Nemu.Result.{
  Result, ok, failed, assertion, out_of_bound, mmio_overlap, check, >>-eq-ok, eq_of_ok, check-eq-ok,
  ◌>>◌,
}
use for_ysyx_self_store_by_h.Nemu.Memory.Map.{
  Io, IoMap, Callback, map_inside, find_mapid_by_addr, map_read, map_write, new_space, page_size,
  io_space_max,
}
use for_ysyx_self_store_by_h.Nemu.Memory.Mmio.{
  Config, in_pmem, nr_map_max, check_overlap, add_mmio_map, fetch_mmio_map, mmio_read, mmio_write,
}

module _ {W : Type 0} where
  abbrev pub IsApart : IoMap W → IoMap W → Type 0
  IsApart m n = (m.high < n.low) ⊎ (n.high < m.low)

  abbrev pub IsApartFrom : List (IoMap W) → IoMap W → Type 0
  IsApartFrom [] n = Unit
  IsApartFrom (m ∷ ms) n = IsApart m n × IsApartFrom ms n

  -- No two regions share an address.
  abbrev pub IsSeparate : List (IoMap W) → Type 0
  IsSeparate [] = Unit
  IsSeparate (m ∷ ms) = IsApartFrom ms m × IsSeparate ms

  pub record IsTable (maps : List (IoMap W)) : Type 0 where
    pub few : length maps ≤ nr_map_max
    pub separate : IsSeparate maps

  check_overlap-IsApartFrom :
      (ms : List (IoMap W)) (n : IoMap W) → check_overlap ms n.low n.high ≡ ok tt → IsApartFrom ms n
  unfolding check_overlap
  check_overlap-IsApartFrom [] n h = tt
  check_overlap-IsApartFrom (m ∷ ms) n h =
      elim (Bool-cases (leb n.low m.high && leb m.low n.high)) [
        | inl e ↦ let bad : failed (mmio_overlap n.low n.high) ≡ ok tt = rw e at h in cc
        | inr e ↦ (ground arith, check_overlap-IsApartFrom ms n (rw e at h))
      ]

  -- A new region behind those that are there.
  IsApartFrom-snoc :
      (ms : List (IoMap W)) (m n : IoMap W)
      → IsApartFrom ms m
      → IsApart n m
      → IsApartFrom (ms ++ n ∷ []) m
  IsApartFrom-snoc [] m n h a = (a, tt)
  IsApartFrom-snoc (k ∷ ms) m n h a = (h.0, IsApartFrom-snoc ms m n h.1 a)

  IsSeparate-snoc :
      (ms : List (IoMap W)) (n : IoMap W)
      → IsSeparate ms
      → IsApartFrom ms n
      → IsSeparate (ms ++ n ∷ [])
  IsSeparate-snoc [] n s h = (tt, tt)
  IsSeparate-snoc (m ∷ ms) n s h =
      (IsApartFrom-snoc ms m n s.0 (swapped h.0), IsSeparate-snoc ms n s.1 h.1)
    where
      swapped : IsApart m n → IsApart n m
      swapped (inl a) = inr a
      swapped (inr a) = inl a

  -- The region that is registered.
  abbrev pub region : ℕ → ℕ → ℕ → Option (Callback W) → IoMap W
  region addr space len callback = record {
    low = addr;
    high = u32 (addr + len + 2 ^ 32 - 1);
    space = space;
    callback = callback;
  }

  -- Where add_mmio_map succeeds on a table of at most sixteen disjoint regions, it has appended the
  -- new region, and the result is such a table again.
  pub add_mmio_map-IsTable :
      (c : Config) (maps maps' : List (IoMap W)) (addr space len : ℕ)
      (callback : Option (Callback W))
      → IsTable maps
      → add_mmio_map c maps addr space len callback ≡ ok maps'
      → (maps' ≡ maps ++ region addr space len callback ∷ []) × IsTable maps'
  unfolding add_mmio_map
  add_mmio_map-IsTable c maps maps' addr space len callback t h = (
    sym (eq_of_ok appends.1),
    subst IsTable (eq_of_ok appends.1) (record {
      few = omega (arith, length-append maps (new ∷ []), room);
      separate = IsSeparate-snoc maps new t.separate (check_overlap-IsApartFrom maps new appends.0);
    }),
  )
    where
      new : IoMap W
      new = region addr space len callback

      appended : Result (List (IoMap W))
      appended = ok (maps ++ new ∷ [])

      outside : Result (Unit {0})
      outside =
          check (not (in_pmem c new.low || in_pmem c new.high)) (mmio_overlap new.low new.high)

      counted :
          (check (ltb (length maps) nr_map_max) assertion ≡ ok tt)
          × ((outside >> (check_overlap maps new.low new.high >> appended)) ≡ ok maps')
      counted = >>-eq-ok _ (outside >> (check_overlap maps new.low new.high >> appended)) h

      appends : (check_overlap maps new.low new.high ≡ ok tt) × (appended ≡ ok maps')
      appends =
          >>-eq-ok (check_overlap maps new.low new.high) appended
            (>>-eq-ok outside (check_overlap maps new.low new.high >> appended) counted.1).1

      room : length maps < nr_map_max
      room = ground (arith, check-eq-ok (ltb (length maps) nr_map_max) assertion counted.0)

  IsApartFrom-get_elem? :
      (ms : List (IoMap W)) (j : ℕ) (n m : IoMap W)
      → IsApartFrom ms n
      → get_elem? ms j ≡ some m
      → IsApart m n
  IsApartFrom-get_elem? [] j n m h at_j = cc
  IsApartFrom-get_elem? (k ∷ ms) zero n m h at_j = subst (λ x. IsApart x n) (eq_of_some at_j) h.0
  IsApartFrom-get_elem? (k ∷ ms) (suc j) n m h at_j = IsApartFrom-get_elem? ms j n m h.1 at_j

  abbrev pub IsOutside : List (IoMap W) → ℕ → Type 0
  IsOutside [] addr = Unit
  IsOutside (m ∷ ms) addr = ((addr < m.low) ⊎ (m.high < addr)) × IsOutside ms addr

  -- Whatever the order of registration, an address in one of the regions leads to that region.
  find-IsSeparate :
      (ms : List (IoMap W)) (i j addr : ℕ) (m : IoMap W)
      → IsSeparate ms
      → get_elem? ms j ≡ some m
      → m.low ≤ addr
      → addr ≤ m.high
      → find_mapid_by_addr ms i addr ≡ some (i + j)
  unfolding find_mapid_by_addr
  find-IsSeparate [] i j addr m s at_j lo hi = cc
  find-IsSeparate (n ∷ ms) i zero addr m s at_j lo hi =
      let n_is : n ≡ m = eq_of_some at_j in
      let inside : map_inside n addr ≡ true = rw n_is (ground arith) in
      rw inside (ap some (omega arith))
  find-IsSeparate (n ∷ ms) i (suc j) addr m s at_j lo hi =
      let apart = IsApartFrom-get_elem? ms j n m s.0 at_j in
      let outside : map_inside n addr ≡ false = ground (arith, apart) in
      rw outside (find-IsSeparate ms (i + 1) j addr m s.1 at_j lo hi ∙ ap some (omega arith))

  find-outside :
      (ms : List (IoMap W)) (i addr : ℕ) → IsOutside ms addr → find_mapid_by_addr ms i addr ≡ none
  unfolding find_mapid_by_addr
  find-outside [] i addr out = refl
  find-outside (m ∷ ms) i addr out =
      let missed : map_inside m addr ≡ false = ground (arith, out.0) in
      rw missed (find-outside ms (i + 1) addr out.1)

  -- In a table of disjoint regions, a read or a write at an address of one of them is a map access
  -- to that region, whatever the order of registration.
  pub mmio-region :
      (maps : List (IoMap W)) (j addr len value : ℕ) (m : IoMap W) (io : Io W)
      → IsTable maps
      → get_elem? maps j ≡ some m
      → m.low ≤ addr
      → addr ≤ m.high
      → (mmio_read maps addr len io ≡ map_read addr len (some m) io)
        × (mmio_write maps addr len value io ≡ map_write addr len value (some m) io)
  unfolding mmio_read mmio_write fetch_mmio_map
  mmio-region maps j addr len value m io t at_j lo hi =
      let found = find-IsSeparate maps 0 j addr m t.separate at_j lo hi in
      let index : 0 + j ≡ j = omega arith in
      let fetched : fetch_mmio_map maps addr ≡ some m = ground (arith, found, index, at_j) in
      (ap (λ o. map_read addr len o io) fetched, ap (λ o. map_write addr len value o io) fetched)

  -- At an address in none of the regions, an MMIO read or write of 1 to 8 bytes reports it as out of
  -- bound.
  mmio-outside :
      (maps : List (IoMap W)) (addr len value : ℕ) (io : Io W)
      → IsOutside maps addr
      → 1 ≤ len
      → len ≤ 8
      → (mmio_read maps addr len io ≡ failed (out_of_bound addr))
        × (mmio_write maps addr len value io ≡ failed (out_of_bound addr))
  unfolding mmio_read mmio_write fetch_mmio_map map_read map_write
  mmio-outside maps addr len value io out lo hi =
      let missed = find-outside maps 0 addr out in
      let sized : (leb 1 len && leb len 8) ≡ true = ground arith in
      (ground (arith, missed, sized), ground (arith, missed, sized))

-- A space that new_space hands out is aligned to a page if the last one ended at a page, covers the
-- size that was asked for, ends where the next one begins, and stays below the end of io_space.
new_space-fits :
    (p_space size start p_space' : ℕ)
    → p_space % page_size ≡ 0
    → new_space p_space size ≡ ok (start, p_space')
    → (start ≡ p_space)
      × (start % page_size ≡ 0)
      × (p_space' % page_size ≡ 0)
      × (start + size ≤ p_space')
      × (p_space' < io_space_max)
unfolding new_space
new_space-fits p_space size start p_space' aligned h = ground arith
