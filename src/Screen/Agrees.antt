-- ===== src/Screen/Agrees.antt =====
-- The memory of C_minirv and the larger one of C_minirv_screen: what an access to the one returns,
-- the other returns too.
use for_ysyx_self_store_by_h.Base.{
  ℕ, ◌+◌, ◌%◌, ◌^◌, ◌≤◌, ◌<◌, ◌≡◌, inl, inr, ap, ◌∙◌, arith, none, some, ltb, update, put_word,
  load8, load32, store8, store32, eq_of_some, Bool-cases,
}
use for_ysyx_self_store_by_h.MiniRv.Machine.{mem_size}
use for_ysyx_self_store_by_h.Screen.Machine.{ram_size}

-- The memories agree on the smaller one.
abbrev pub Agrees : (ℕ → ℕ) → (ℕ → ℕ) → Type 0
Agrees a m = (i : ℕ) → i < mem_size → m i ≡ a i

pub load32-Agrees :
    (a m : ℕ → ℕ) (i v : ℕ)
    → Agrees a m
    → load32 mem_size a i ≡ some v
    → load32 ram_size m i ≡ some v
unfolding load32
load32-Agrees a m i v h found = ground (arith, h i, h (i + 1), h (i + 2), h (i + 3))

pub load8-Agrees :
    (a m : ℕ → ℕ) (i v : ℕ) → Agrees a m → load8 mem_size a i ≡ some v → load8 ram_size m i ≡ some v
unfolding load8
load8-Agrees a m i v h found = ground (arith, h i)

pub store32-Agrees :
    (a m a' : ℕ → ℕ) (i v : ℕ)
    → Agrees a m
    → store32 mem_size a i v ≡ some a'
    → (i + 4 ≤ mem_size)
      × (store32 ram_size m i v ≡ some (put_word m i v))
      × Agrees a' (put_word m i v)
unfolding store32
store32-Agrees a m a' i v h found = elim (Bool-cases (ltb mem_size (i + 4))) [
  | inl e ↦ let lost : none ≡ some a' = rw e at found in cc
  | inr e ↦
      let stored : some (put_word a i v) ≡ some a' = rw e at found in
      (
        ground arith,
        ground arith,
        λ j b. put_word-same j b ∙ ap (λ (f : ℕ → ℕ). f j) (eq_of_some stored),
      )
]
  where
    put_word-same : (j : ℕ) → j < mem_size → put_word m i v j ≡ put_word a i v j
    put_word-same j b = ground (arith, h j b)

pub store8-Agrees :
    (a m a' : ℕ → ℕ) (i v : ℕ)
    → Agrees a m
    → store8 mem_size a i v ≡ some a'
    → (store8 ram_size m i v ≡ some (update m i (v % 2 ^ 8))) × Agrees a' (update m i (v % 2 ^ 8))
unfolding store8
store8-Agrees a m a' i v h found = elim (Bool-cases (ltb i mem_size)) [
  | inl e ↦
      let stored : some (update a i (v % 2 ^ 8)) ≡ some a' = rw e at found in
      (ground arith, λ j b. update-same j b ∙ ap (λ (f : ℕ → ℕ). f j) (eq_of_some stored))
  | inr e ↦ let lost : none ≡ some a' = rw e at found in cc
]
  where
    update-same : (j : ℕ) → j < mem_size → update m i (v % 2 ^ 8) j ≡ update a i (v % 2 ^ 8) j
    update-same j b = ground (arith, h j b)
