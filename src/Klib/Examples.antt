-- ===== src/Klib/Examples.antt =====
-- Runs of atoi of ysyx-workbench/abstract-machine/klib/src/stdlib.c.
use for_ysyx_self_store_by_h.Base.{none, some, [], ◌∷◌, ◌≡◌, refl}
use for_ysyx_self_store_by_h.Klib.{atoi}

behind_blanks : atoi (b' ' ∷ b'4' ∷ b'2' ∷ b'x' ∷ []) ≡ some 42
unfolding atoi
behind_blanks = refl

-- The greatest int, which overflows on the way.
greatest_int :
    atoi (b'2' ∷ b'1' ∷ b'4' ∷ b'7' ∷ b'4' ∷ b'8' ∷ b'3' ∷ b'6' ∷ b'4' ∷ b'7' ∷ []) ≡ none
unfolding atoi
greatest_int = refl
