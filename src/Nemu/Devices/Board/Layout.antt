-- ===== src/Nemu/Devices/Board/Layout.antt =====
-- What the registrations in the init functions of ysyx-workbench/nemu/src/device leave: disjoint
-- regions of guest addresses over disjoint parts of io_space.
use for_ysyx_self_store_by_h.Base.{
  ℕ, ◌+◌, ◌-◌, ◌<◌, ◌≤◌, Option, List, [], ◌∷◌, ◌++◌, ◌≡◌, sym, subst, arith,
}
use for_ysyx_self_store_by_h.Nemu.Result.{
  Result, ok, ◌>>=◌, Ensures, Ensures-ok, Ensures-chain, Ensures->>=,
}
use for_ysyx_self_store_by_h.Nemu.Memory.Map.{IoMap, Callback, new_space, io_space_max}
use for_ysyx_self_store_by_h.Nemu.Memory.Mmio.{Config, add_mmio_map}
use for_ysyx_self_store_by_h.Nemu.Memory.Table.{IsTable, add_mmio_map-IsTable, region}
use for_ysyx_self_store_by_h.Nemu.Devices.World.{World}
use for_ysyx_self_store_by_h.Nemu.Devices.Board.{Options, Board, allocate, with_space, add_map}

-- Behind the part of io_space that a map has.
abbrev pub end_of : IoMap World → ℕ
end_of m = m.space + (m.high + 1 - m.low)

abbrev pub EndsBy : List (IoMap World) → ℕ → Type 0
EndsBy [] p = Unit
EndsBy (m ∷ ms) p = (end_of m ≤ p) × EndsBy ms p

abbrev pub StartsFrom : List (IoMap World) → ℕ → Type 0
StartsFrom [] p = Unit
StartsFrom (m ∷ ms) p = (p ≤ m.space) × StartsFrom ms p

-- Each map's part lies before those of all later maps.
abbrev pub IsStacked : List (IoMap World) → Type 0
IsStacked [] = Unit
IsStacked (m ∷ ms) = StartsFrom ms (end_of m) × IsStacked ms

pub record IsLaidOut (b : Board) : Type 0 where
  pub table : IsTable b.maps
  pub stacked : IsStacked b.maps
  pub used : EndsBy b.maps b.p_space
  pub within : b.p_space < io_space_max

StartsFrom-snoc :
    (ms : List (IoMap World)) (m : IoMap World) (p : ℕ)
    → StartsFrom ms p
    → p ≤ m.space
    → StartsFrom (ms ++ m ∷ []) p
StartsFrom-snoc [] m p h lo = (lo, tt)
StartsFrom-snoc (n ∷ ms) m p h lo = (h.0, StartsFrom-snoc ms m p h.1 lo)

IsStacked-snoc :
    (ms : List (IoMap World)) (m : IoMap World)
    → IsStacked ms
    → EndsBy ms m.space
    → IsStacked (ms ++ m ∷ [])
IsStacked-snoc [] m h e = (tt, tt)
IsStacked-snoc (n ∷ ms) m h e =
    (StartsFrom-snoc ms m (end_of n) h.0 e.0, IsStacked-snoc ms m h.1 e.1)

EndsBy-snoc :
    (ms : List (IoMap World)) (m : IoMap World) (p q : ℕ)
    → EndsBy ms p
    → p ≤ q
    → end_of m ≤ q
    → EndsBy (ms ++ m ∷ []) q
EndsBy-snoc [] m p q h le e = (e, tt)
EndsBy-snoc (n ∷ ms) m p q h le e = (omega (arith, h.0), EndsBy-snoc ms m p q h.1 le e)

EndsBy-up : (ms : List (IoMap World)) (p q : ℕ) → EndsBy ms p → p ≤ q → EndsBy ms q
EndsBy-up [] p q h le = tt
EndsBy-up (m ∷ ms) p q h le = (omega (arith, h.0), EndsBy-up ms p q h.1 le)

-- A new space that no map has yet.
record HasRoom (base size : ℕ) (b : Board) : Type 0 where
  laid_out : IsLaidOut b
  before : EndsBy b.maps base
  room : base + size ≤ b.p_space

allocate-HasRoom :
    (size : ℕ) (b : Board) → IsLaidOut b → Ensures (λ x. HasRoom x.0 size x.1) (allocate size b)
unfolding new_space
allocate-HasRoom size b h =
    Ensures->>= (new_space b.p_space size) (λ x. ok (x.0, record b { p_space = x.1 }))
      (λ (base, p) e.
        let parts : (base ≡ b.p_space) × (base + size ≤ p) × (p < io_space_max) =
          ground (arith, e) in
        Ensures-ok (base, record b { p_space = p })
          (record {
            laid_out = record {
              table = h.table;
              stacked = h.stacked;
              used = EndsBy-up b.maps b.p_space p h.used (omega (arith, parts));
              within = parts.2;
            };
            before = EndsBy-up b.maps b.p_space base h.used (omega (arith, parts));
            room = parts.1;
          }))

pub with_space-IsLaidOut :
    (f : (ℕ → ℕ) → ℕ → ℕ) (b : Board) → IsLaidOut b → IsLaidOut (with_space f b)
with_space-IsLaidOut f b h = record {
  table = h.table;
  stacked = h.stacked;
  used = h.used;
  within = h.within;
}

with_space-HasRoom :
    (base size : ℕ) (f : (ℕ → ℕ) → ℕ → ℕ) (b : Board)
    → HasRoom base size b
    → HasRoom base size (with_space f b)
with_space-HasRoom base size f b h = record {
  laid_out = with_space-IsLaidOut f b h.laid_out;
  before = h.before;
  room = h.room;
}

module _ (c : Config) (k : Options) where
  add_map-IsLaidOut :
      (addr base size : ℕ) (callback : Option (Callback World)) (b : Board)
      → 0 < size
      → HasRoom base size b
      → Ensures IsLaidOut (add_map c k addr base size callback b)
  add_map-IsLaidOut addr base size callback b some_bytes h =
      Ensures->>= (add_mmio_map c b.maps addr base size callback)
        (λ maps. ok (record b { maps = maps }))
        (λ maps e.
          let (appended, table) =
            add_mmio_map-IsTable c b.maps maps addr base size callback h.laid_out.table e in
          let new : IoMap World = region addr base size callback in
          let small : end_of new ≤ base + size = omega arith in
          Ensures-ok (record b { maps = maps })
            (record {
              table = table;
              stacked =
                  subst IsStacked (sym appended)
                    (IsStacked-snoc b.maps new h.laid_out.stacked h.before);
              used =
                  subst (λ ms. EndsBy ms b.p_space) (sym appended)
                    (EndsBy-snoc b.maps new base b.p_space h.before (omega (arith, h.room))
                      (omega (arith, h.room, small)));
              within = h.laid_out.within;
            }))

  -- The two calls of an init function, with something done to the board in between.
  pub register :
      (addr size : ℕ) (callback : ℕ → Option (Callback World)) (f : ℕ → (ℕ → ℕ) → ℕ → ℕ) (b : Board)
      → 0 < size
      → IsLaidOut b
      → Ensures IsLaidOut (
          allocate size b >>= λ (base, b').
          add_map c k addr base size (callback base) (with_space (f base) b'))
  register addr size callback f b some_bytes h =
      Ensures-chain (allocate size b)
        (λ (base, b'). add_map c k addr base size (callback base) (with_space (f base) b'))
        (allocate-HasRoom size b h)
        (λ (base, b') r.
          add_map-IsLaidOut addr base size (callback base) (with_space (f base) b') some_bytes
            (with_space-HasRoom base size (f base) b' r))

  -- The same, and more behind it.
  pub register-then :
      (addr size : ℕ) (callback : ℕ → Option (Callback World)) (f : ℕ → (ℕ → ℕ) → ℕ → ℕ)
      (rest : ℕ → Board → Result Board) (b : Board)
      → 0 < size
      → IsLaidOut b
      → ((base : ℕ) (b' : Board) → IsLaidOut b' → Ensures IsLaidOut (rest base b'))
      → Ensures IsLaidOut (
          allocate size b >>= λ (base, b').
          add_map c k addr base size (callback base) (with_space (f base) b') >>= rest base)
  register-then addr size callback f rest b some_bytes h goes =
      Ensures-chain (allocate size b)
        (λ (base, b').
          add_map c k addr base size (callback base) (with_space (f base) b') >>= rest base)
        (allocate-HasRoom size b h)
        (λ (base, b') r.
          Ensures-chain (add_map c k addr base size (callback base) (with_space (f base) b'))
            (rest base)
            (add_map-IsLaidOut addr base size (callback base) (with_space (f base) b') some_bytes
              (with_space-HasRoom base size (f base) b' r))
            (goes base))
