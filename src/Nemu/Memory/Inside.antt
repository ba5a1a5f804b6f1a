-- ===== src/Nemu/Memory/Inside.antt =====
-- What an access through a map that has the address comes down to.
use for_ysyx_self_store_by_h.Base.{
  ℕ, ◌+◌, ◌-◌, ◌≤◌, some, true, false, ◌&&◌, ◌≡◌, refl, arith, leb, word_at, put_word,
}
use for_ysyx_self_store_by_h.Nemu.Result.{ok, ◌>>=◌}
use for_ysyx_self_store_by_h.Nemu.Memory.Host.{host_read, host_write}
use for_ysyx_self_store_by_h.Nemu.Memory.Map.{
  Io, IoMap, invoke_callback, map_read, map_write, io_space_max,
}

module _ {W : Type 0} (addr len : ℕ) (m : IoMap W) (io : Io W) where
  pub map_read-inside :
      1 ≤ len
      → len ≤ 8
      → m.low ≤ addr
      → addr ≤ m.high
      → map_read addr len (some m) io ≡ (
          invoke_callback m.callback (addr - m.low) len false io >>= λ io'.
          host_read io_space_max io'.io_space (m.space + (addr - m.low)) len >>= λ ret.
          ok (ret, io'))
  unfolding map_read
  map_read-inside one eight lo hi =
      let sized : (leb 1 len && leb len 8) ≡ true = ground arith in
      let bound : (leb addr m.high && leb m.low addr) ≡ true = ground arith in
      rw sized (rw bound refl)

  pub map_write-inside :
      (value : ℕ)
      → 1 ≤ len
      → len ≤ 8
      → m.low ≤ addr
      → addr ≤ m.high
      → map_write addr len value (some m) io ≡ (
          host_write io_space_max io.io_space (m.space + (addr - m.low)) len value >>= λ space.
          invoke_callback m.callback (addr - m.low) len true (record io { io_space = space }))
  unfolding map_write
  map_write-inside value one eight lo hi =
      let sized : (leb 1 len && leb len 8) ≡ true = ground arith in
      let bound : (leb addr m.high && leb m.low addr) ≡ true = ground arith in
      rw sized (rw bound refl)

-- Words in the array.
pub host_read-word :
    (size : ℕ) (a : ℕ → ℕ) (i : ℕ) → i + 4 ≤ size → host_read size a i 4 ≡ ok (word_at a i)
unfolding host_read
host_read-word size a i h = ground arith

pub host_write-word :
    (size : ℕ) (a : ℕ → ℕ) (i v : ℕ) → i + 4 ≤ size → host_write size a i 4 v ≡ ok (put_word a i v)
unfolding host_write
host_write-word size a i v h = ground arith
