-- ===== src/Base/Words.antt =====
-- Machine words: a w-bit integer is its bit pattern, a number below 2 ^ w.
mod Bits
unfoldable pub use Bits.*
use Prim.Native.Nat.{ℕ, ◌+◌, ◌-◌, ◌*◌, ◌/◌, ◌%◌, ◌^◌, ◌<◌}
use mathlib.Core.Path.{◌≡◌}
use native.Mathlib.Omega.{arith}
use for_ysyx_self_store_by_h.Base.Tests.{ltb, if◌then◌else◌}

-- The casts to uint8_t and uint32_t.
abbrev pub u8 : ℕ → ℕ
u8 n = n % 2 ^ 8

abbrev pub u32 : ℕ → ℕ
u32 n = n % 2 ^ 32

-- `(x >> lo) & (2 ^ width - 1)`, for a mask of low ones.
abbrev pub bits : ℕ → ℕ → ℕ → ℕ
bits x lo width = x / 2 ^ lo % 2 ^ width

-- `x << k` on a 32-bit pattern.
abbrev pub shl32 : ℕ → ℕ → ℕ
shl32 x k = x * 2 ^ k % 2 ^ 32

-- `x >> k` on an int32_t pattern: the sign bit is repeated from above.
abbrev pub sar32 : ℕ → ℕ → ℕ
sar32 x k = if ltb x (2 ^ 31) then x / 2 ^ k else x / 2 ^ k + (2 ^ 32 - 2 ^ (32 - k))

-- The 32-bit pattern of the integer that the `len`-bit pattern `x` stands for.
abbrev pub sext32 : ℕ → ℕ → ℕ
sext32 x len = if ltb x (2 ^ (len - 1)) then x else x + (2 ^ 32 - 2 ^ len)

-- Shifting a 12-bit field up by 20 and back down, as an int32_t, is sign extension.
pub sar32-shl32 : (x : ℕ) → x < 2 ^ 12 → sar32 (shl32 x 20) 20 ≡ sext32 x 12
sar32-shl32 x h = ground arith
