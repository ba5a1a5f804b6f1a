-- ===== src/Nemu/Memory/Access.antt =====
-- What a write to guest memory leaves for the reads behind it.
use for_ysyx_self_store_by_h.Base.{
  ℕ, ◌+◌, ◌-◌, ◌*◌, ◌/◌, ◌%◌, ◌^◌, ◌<◌, ◌≤◌, true, ◌&&◌, ◌==◌, ◌≡◌, ◌⊎◌, inl, inr, ap, sym, ◌∙◌,
  arith, leb, ltb, if◌then◌else◌, update, put_word, word_at, u32,
}
use for_ysyx_self_store_by_h.Nemu.Result.{ok, fault, >>=-eq-ok, ◌>>=◌}
use for_ysyx_self_store_by_h.Nemu.Memory.Host.{host_read, host_write}
use for_ysyx_self_store_by_h.Nemu.Memory.Mmio.{Config, in_pmem}
use for_ysyx_self_store_by_h.Nemu.Memory.Paddr.{
  Bus, paddr_read, paddr_write, guest_to_host, pmem_write,
}

-- The bytes that a write of `len` bytes leaves at `i`, for the three lengths.
abbrev written : (ℕ → ℕ) → ℕ → ℕ → ℕ → (ℕ → ℕ)
written a i len v =
    if len == 1
    then update a i (v % 2 ^ 8)
    else if len == 2
    then update (update a i (v % 2 ^ 8)) (i + 1) (v / 2 ^ 8 % 2 ^ 8)
    else put_word a i v

abbrev IsLength : ℕ → Type 0
IsLength len = (len ≡ 1) ⊎ ((len ≡ 2) ⊎ (len ≡ 4))

-- A host access succeeds exactly for the lengths 1, 2 and 4 within the array.
host_write-cases :
    (size : ℕ) (a : ℕ → ℕ) (i len v : ℕ) {a' : ℕ → ℕ}
    → host_write size a i len v ≡ ok a'
    → IsLength len × (i + len ≤ size) × (a' ≡ written a i len v)
unfolding host_write
host_write-cases size a i len v h = ground arith

read-written :
    (size : ℕ) (a : ℕ → ℕ) (i len v : ℕ)
    → IsLength len
    → i + len ≤ size
    → host_read size (written a i len v) i len ≡ ok (v % 2 ^ (8 * len))
unfolding host_read
read-written size a i len v (inl e) h = rw e (ground arith)
read-written size a i len v (inr (inl e)) h = rw e (ground arith)
read-written size a i len v (inr (inr e)) h = rw e (ground arith)

written-outside :
    (a : ℕ → ℕ) (i len v j : ℕ) → IsLength len → (j < i) ⊎ (i + len ≤ j) → written a i len v j ≡ a j
written-outside a i len v j l h = ground arith

-- in_pmem is the range check that it stands for, where the memory does not wrap around.
pub in_pmem-range :
    (c : Config) (addr : ℕ)
    → c.mbase + c.msize ≤ 2 ^ 32
    → addr < 2 ^ 32
    → in_pmem c addr ≡ (leb c.mbase addr && ltb addr (c.mbase + c.msize))
unfolding in_pmem
in_pmem-range c addr fits h = ground arith

module _ {W : Type 0} (c : Config) (addr len v : ℕ) (b b' : Bus W) where
  -- A write to physical memory that succeeds is a host write.
  pmem_write-parts :
      in_pmem c addr ≡ true
      → paddr_write c addr len v b ≡ ok b'
      → host_write c.msize b.pmem (guest_to_host c addr) len v ≡ ok b'.pmem
        × (b' ≡ record b { pmem = b'.pmem })
  unfolding paddr_write
  pmem_write-parts inside h =
      let h' : pmem_write c addr len v b ≡ ok b' = rw inside at h in
      let (pmem, stores, same) =
        >>=-eq-ok (host_write c.msize b.pmem (guest_to_host c addr) len v)
          (λ pmem. ok (record b { pmem = pmem })) h' in
      (ground (arith, stores, same), ground (arith, same))

  -- After a write to physical memory that succeeds, a read of the same address and length returns
  -- what of the value fits the length, and leaves the bus alone.
  pub paddr_read-write :
      in_pmem c addr ≡ true
      → paddr_write c addr len v b ≡ ok b'
      → paddr_read c addr len b' ≡ ok (v % 2 ^ (8 * len), b')
  unfolding paddr_read
  paddr_read-write inside h =
      let parts = pmem_write-parts inside h in
      let (length_ok, in_range, bytes) =
        host_write-cases c.msize b.pmem (guest_to_host c addr) len v parts.0 in
      let reads : host_read c.msize b'.pmem (guest_to_host c addr) len ≡ ok (v % 2 ^ (8 * len)) =
        ap (λ (a : ℕ → ℕ). host_read c.msize a (guest_to_host c addr) len) bytes
        ∙ read-written c.msize b.pmem (guest_to_host c addr) len v length_ok in_range in
      rw inside (ap (λ r. r >>= λ w. ok (w, b')) reads)

  -- A write to physical memory that succeeds changes no byte of it outside the `len` bytes that it
  -- is for, and neither the maps nor the I/O side.
  paddr_write-frame :
      in_pmem c addr ≡ true
      → paddr_write c addr len v b ≡ ok b'
      → (j : ℕ) → (j < guest_to_host c addr) ⊎ (guest_to_host c addr + len ≤ j)
      → (b'.pmem j ≡ b.pmem j) × (b'.maps ≡ b.maps) × (b'.io ≡ b.io)
  paddr_write-frame inside h j outside =
      let parts = pmem_write-parts inside h in
      let (length_ok, in_range, bytes) =
        host_write-cases c.msize b.pmem (guest_to_host c addr) len v parts.0 in
      (
        ap (λ (a : ℕ → ℕ). a j) bytes
            ∙ written-outside b.pmem (guest_to_host c addr) len v j length_ok outside,
        ap (λ (x : Bus W). x.maps) parts.1,
        ap (λ (x : Bus W). x.io) parts.1,
      )

host_read-word :
    (size : ℕ) (a : ℕ → ℕ) (i : ℕ) → i + 4 ≤ size → host_read size a i 4 ≡ ok (word_at a i)
unfolding host_read
host_read-word size a i h = ground arith

host_read-past : (size : ℕ) (a : ℕ → ℕ) (i : ℕ) → size < i + 4 → host_read size a i 4 ≡ fault
unfolding host_read
host_read-past size a i h = ground arith

module _ {W : Type 0} (c : Config) (addr : ℕ) (b : Bus W) where
  -- Where the base is aligned and the size is a multiple of four, an aligned word whose first byte
  -- is in physical memory is read whole: the check on the first byte is then enough.
  pub paddr_read-aligned :
      c.mbase % 4 ≡ 0
      → c.msize % 4 ≡ 0
      → c.mbase + c.msize ≤ 2 ^ 32
      → addr < 2 ^ 32
      → addr % 4 ≡ 0
      → in_pmem c addr ≡ true
      → paddr_read c addr 4 b ≡ ok (word_at b.pmem (addr - c.mbase), b)
  unfolding paddr_read
  paddr_read-aligned base size fits bound aligned inside =
      let range = sym (in_pmem-range c addr fits bound) ∙ inside in
      let offset : guest_to_host c addr ≡ addr - c.mbase = ground (arith, range) in
      let within : addr - c.mbase + 4 ≤ c.msize = ground (arith, range) in
      let reads =
        ap (λ i. host_read c.msize b.pmem i 4) offset
        ∙ host_read-word c.msize b.pmem (addr - c.mbase) within in
      rw inside (ap (λ r. r >>= λ w. ok (w, b)) reads)

  -- A word whose first byte is one of the last three of physical memory passes the check, and is
  -- read behind the end of the array.
  paddr_read-past_end :
      c.mbase + c.msize ≤ 2 ^ 32
      → addr < c.mbase + c.msize
      → c.mbase ≤ addr
      → c.mbase + c.msize < addr + 4
      → paddr_read c addr 4 b ≡ fault
  unfolding paddr_read in_pmem
  paddr_read-past_end fits below above past =
      let inside : ltb (u32 (addr + 2 ^ 32 - c.mbase)) c.msize ≡ true = ground arith in
      let off : c.msize < u32 (addr + 2 ^ 32 - c.mbase) + 4 = omega arith in
      rw inside (
        ap (λ r. r >>= λ w. ok (w, b))
          (host_read-past c.msize b.pmem (u32 (addr + 2 ^ 32 - c.mbase)) off))
