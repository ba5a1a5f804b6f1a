-- ===== src/Nemu/Pattern/Meaning.antt =====
-- What a binary pattern means, by itself: its last character stands for bit 0 of the instruction,
-- and each character that is not a space constrains one bit.
use for_ysyx_self_store_by_h.Base.{
  ℕ, ◌+◌, ◌/◌, ◌%◌, ◌^◌, Bool, true, ◌&&◌, ◌||◌, List, [], ◌∷◌, if◌then◌else◌, ◌==◌, ◌≡◌, arith,
}

-- The number of bits that a pattern speaks about.
abbrev pub width : List ℕ → ℕ
width [] = 0
width (c ∷ cs) = if c == b' ' then width cs else width cs + 1

abbrev pub accepts : ℕ → ℕ → Bool
accepts c bit = if c == b'?' then true else if c == b'1' then bit == 1 else bit == 0

abbrev pub matches : List ℕ → ℕ → Bool
matches [] inst = true
matches (c ∷ cs) inst =
    if c == b' ' then matches cs inst else accepts c (inst / 2 ^ width cs % 2) && matches cs inst

abbrev pub is_allowed : ℕ → Bool
is_allowed c = c == b' ' || (c == b'0' || (c == b'1' || c == b'?'))

-- Every character is 0, 1, ? or a space.
abbrev pub IsPattern : List ℕ → Type 0
IsPattern [] = Unit
IsPattern (c ∷ cs) = (is_allowed c ≡ true) × IsPattern cs

abbrev pub all_allowed : List ℕ → Bool
all_allowed [] = true
all_allowed (c ∷ cs) = is_allowed c && all_allowed cs

pub IsPattern-of : (cs : List ℕ) → all_allowed cs ≡ true → IsPattern cs
IsPattern-of [] h = tt
IsPattern-of (c ∷ cs) h = (ground arith, IsPattern-of cs (ground arith))
