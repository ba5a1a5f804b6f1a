-- ===== src/Base/Memory.antt =====
-- C arrays of fixed length as functions from the index, and little-endian words in byte arrays.
use Prim.Native.Nat.{ℕ, ◌+◌, ◌*◌, ◌/◌, ◌%◌, ◌^◌, ◌≤◌, ◌<◌}
use mathlib.Core.Path.{◌≡◌, subst}
use mathlib.Core.Logic.{inl, inr}
use mathlib.Core.Option.{Option, none, some}
use native.Mathlib.Omega.{arith}
use for_ysyx_self_store_by_h.Base.Tests.{ltb, ◌==◌, if◌then◌else◌, Bool-cases, eq_of_some}

-- `a[i] = v`.
abbrev pub update {ℓ} : {A : Type ℓ} → (ℕ → A) → ℕ → A → ℕ → A
update a i v j = if i == j then v else a j

-- The word at `a[i .. i + 4)`, the lowest byte first.
abbrev pub word_at : (ℕ → ℕ) → ℕ → ℕ
word_at a i = a i + a (i + 1) * 2 ^ 8 + a (i + 2) * 2 ^ 16 + a (i + 3) * 2 ^ 24

abbrev pub put_word : (ℕ → ℕ) → ℕ → ℕ → ℕ → ℕ
put_word a i v =
    update
      (update (update (update a i (v % 2 ^ 8)) (i + 1) (v / 2 ^ 8 % 2 ^ 8)) (i + 2)
        (v / 2 ^ 16 % 2 ^ 8))
      (i + 3) (v / 2 ^ 24 % 2 ^ 8)

-- Accesses to an array of `size` bytes; `none` is an access out of range, which C leaves undefined.
unfoldable pub load8 : ℕ → (ℕ → ℕ) → ℕ → Option ℕ
load8 size a i = if ltb i size then some (a i) else none

unfoldable pub load32 : ℕ → (ℕ → ℕ) → ℕ → Option ℕ
load32 size a i = if ltb size (i + 4) then none else some (word_at a i)

unfoldable pub store8 : ℕ → (ℕ → ℕ) → ℕ → ℕ → Option (ℕ → ℕ)
store8 size a i v = if ltb i size then some (update a i (v % 2 ^ 8)) else none

unfoldable pub store32 : ℕ → (ℕ → ℕ) → ℕ → ℕ → Option (ℕ → ℕ)
store32 size a i v = if ltb size (i + 4) then none else some (put_word a i v)

abbrev pub IsBytes : (ℕ → ℕ) → Type 0
IsBytes a = (i : ℕ) → a i < 2 ^ 8

pub word_at-put_word : (a : ℕ → ℕ) (i v : ℕ) → v < 2 ^ 32 → word_at (put_word a i v) i ≡ v
word_at-put_word a i v h = ground arith

-- What is in range, and what it holds.
pub load32-some :
    (size : ℕ) (a : ℕ → ℕ) (i : ℕ) → i + 4 ≤ size → load32 size a i ≡ some (word_at a i)
unfolding load32
load32-some size a i h = ground arith

pub load32-none : (size : ℕ) (a : ℕ → ℕ) (i : ℕ) → size < i + 4 → load32 size a i ≡ none
unfolding load32
load32-none size a i h = ground arith

-- A word that a load returns has 32 bits, and a byte 8.
pub load32-lt : (size : ℕ) (a : ℕ → ℕ) (i v : ℕ) → IsBytes a → load32 size a i ≡ some v → v < 2 ^ 32
unfolding load32
load32-lt size a i v b h = ground (arith, b i, b (i + 1), b (i + 2), b (i + 3))

pub load8-lt : (size : ℕ) (a : ℕ → ℕ) (i v : ℕ) → IsBytes a → load8 size a i ≡ some v → v < 2 ^ 8
unfolding load8
load8-lt size a i v b h = ground (arith, b i)

pub update-IsBytes : (a : ℕ → ℕ) (i v : ℕ) → IsBytes a → v < 2 ^ 8 → IsBytes (update a i v)
update-IsBytes a i v b h j = ground (arith, b j)

pub put_word-IsBytes : (a : ℕ → ℕ) (i v : ℕ) → IsBytes a → IsBytes (put_word a i v)
put_word-IsBytes a i v b =
    update-IsBytes _ (i + 3) _
      (update-IsBytes _ (i + 2) _
        (update-IsBytes _ (i + 1) _ (update-IsBytes a i _ b (omega arith)) (omega arith))
        (omega arith))
      (omega arith)

pub store8-IsBytes :
    (size : ℕ) (a : ℕ → ℕ) (i v : ℕ)
    → IsBytes a
    → (m : ℕ → ℕ) → store8 size a i v ≡ some m
    → IsBytes m
unfolding store8
store8-IsBytes size a i v b m h = elim (Bool-cases (ltb i size)) [
  | inl e ↦
      let found : some (update a i (v % 2 ^ 8)) ≡ some m = rw e at h in
      subst IsBytes (eq_of_some found) (update-IsBytes a i (v % 2 ^ 8) b (omega arith))
  | inr e ↦ let lost : none ≡ some m = rw e at h in cc
]

pub store32-IsBytes :
    (size : ℕ) (a : ℕ → ℕ) (i v : ℕ)
    → IsBytes a
    → (m : ℕ → ℕ) → store32 size a i v ≡ some m
    → IsBytes m
unfolding store32
store32-IsBytes size a i v b m h = elim (Bool-cases (ltb size (i + 4))) [
  | inl e ↦ let lost : none ≡ some m = rw e at h in cc
  | inr e ↦
      let found : some (put_word a i v) ≡ some m = rw e at h in
      subst IsBytes (eq_of_some found) (put_word-IsBytes a i v b)
]
