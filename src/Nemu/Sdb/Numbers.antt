-- ===== src/Nemu/Sdb/Numbers.antt =====
-- What parse_uint64 of ysyx-workbench/nemu/src/monitor/sdb/sdb.c makes of a decimal number.
use for_ysyx_self_store_by_h.Base.{
  ℕ, ◌+◌, ◌*◌, ◌^◌, ◌<◌, true, false, ◌≡◌, refl, ap, ◌∙◌, arith, none, some, List, [], ◌∷◌, ◌++◌,
  if◌then◌else◌, ltb, ◌==◌,
}
use for_ysyx_self_store_by_h.Nemu.Sdb.Text.{
  is_space, skip_spaces, digit_value, read_digits, starts_digit, strtoull, in_range, parse_uint64,
}

-- The number that digits stand for, behind digits of the value `acc`.
abbrev pub digits_value : ℕ → ℕ → List ℕ → ℕ
digits_value base acc [] = acc
digits_value base acc (d ∷ ds) = digits_value base (acc * base + digit_value d) ds

abbrev pub IsDigits : ℕ → List ℕ → Type 0
IsDigits base [] = Unit
IsDigits base (d ∷ ds) = (digit_value d < base) × IsDigits base ds

abbrev pub IsSpaces : List ℕ → Type 0
IsSpaces [] = Unit
IsSpaces (s ∷ ss) = (is_space s ≡ true) × IsSpaces ss

skip_spaces-IsSpaces :
    (ss text : List ℕ) → IsSpaces ss → skip_spaces (ss ++ text) ≡ skip_spaces text
unfolding skip_spaces
skip_spaces-IsSpaces [] text h = refl
skip_spaces-IsSpaces (s ∷ ss) text h = rw (h.0) (skip_spaces-IsSpaces ss text h.1)

-- A text that ends in spaces, up to whether it has anything else.
pub skip_spaces-only : (ss : List ℕ) → IsSpaces ss → skip_spaces ss ≡ []
unfolding skip_spaces
skip_spaces-only [] h = refl
skip_spaces-only (s ∷ ss) h = rw (h.0) (skip_spaces-only ss h.1)

read_digits-IsDigits :
    (base acc : ℕ) (ds rest : List ℕ)
    → IsDigits base ds
    → starts_digit base rest ≡ false
    → read_digits base acc (ds ++ rest) ≡ (digits_value base acc ds, rest)
unfolding read_digits
read_digits-IsDigits base acc [] [] h e = refl
read_digits-IsDigits base acc [] (c ∷ rest) h e = rw e refl
read_digits-IsDigits base acc (d ∷ ds) rest h e =
    let here : ltb (digit_value d) base ≡ true = ground (arith, h.0) in
    rw here (read_digits-IsDigits base (acc * base + digit_value d) ds rest h.1 e)

-- A decimal digit is no space and no sign.
decimal-digit :
    (d : ℕ)
    → digit_value d < 10
    → (is_space d ≡ false) × ((d == b'-') ≡ false) × ((d == b'+') ≡ false)
unfolding digit_value
decimal-digit d h = ground arith

skip_spaces-digit : (d : ℕ) (text : List ℕ) → digit_value d < 10 → skip_spaces (d ∷ text) ≡ d ∷ text
unfolding skip_spaces
skip_spaces-digit d text h = let (no_space, _, _) = decimal-digit d h in rw (no_space) refl

strtoull-decimal :
    (d : ℕ) (ds rest : List ℕ)
    → IsDigits 10 (d ∷ ds)
    → starts_digit 10 rest ≡ false
    → strtoull 10 (d ∷ (ds ++ rest)) ≡ some (digits_value 10 0 (d ∷ ds), rest)
unfolding strtoull
strtoull-decimal d ds rest h e =
    let (_, _, no_plus) = decimal-digit d h.0 in
    let digit : ltb (digit_value d) 10 ≡ true = ground (arith, h.0) in
    rw (no_plus) (rw digit (ap some (read_digits-IsDigits 10 (0 + digit_value d) ds rest h.1 e)))

-- On spaces, at least one decimal digit, and a text that does not start with one, parse_uint64 in
-- base 10 returns the number that the digits stand for, and the text behind them; from 2 ^ 64 on it
-- fails.
pub parse_uint64-decimal :
    (ss : List ℕ) (d : ℕ) (ds rest : List ℕ)
    → IsSpaces ss
    → IsDigits 10 (d ∷ ds)
    → starts_digit 10 rest ≡ false
    → parse_uint64 (some (ss ++ d ∷ (ds ++ rest))) 10 ≡ (
        if ltb (digits_value 10 0 (d ∷ ds)) (2 ^ 64)
        then some (digits_value 10 0 (d ∷ ds), rest)
        else none)
unfolding parse_uint64
parse_uint64-decimal ss d ds rest hs h e =
    let start : skip_spaces (ss ++ d ∷ (ds ++ rest)) ≡ d ∷ (ds ++ rest) =
      skip_spaces-IsSpaces ss (d ∷ (ds ++ rest)) hs ∙ skip_spaces-digit d (ds ++ rest) h.0 in
    let (_, no_minus, _) = decimal-digit d h.0 in
    let n = digits_value 10 0 (d ∷ ds) in
    let ranged : in_range (some (n, rest)) ≡ (if ltb n (2 ^ 64) then some (n, rest) else none) =
      ground arith in
    rw start (rw no_minus (ap in_range (strtoull-decimal d ds rest h e) ∙ ranged))
