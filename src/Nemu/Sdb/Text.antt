-- ===== src/Nemu/Sdb/Text.antt =====
-- Text in ysyx-workbench/nemu/src/monitor/sdb/sdb.c: skip_spaces, parse_uint64, and what these and
-- the main loop use of the C library. A string is the list of its characters without the final 0, a
-- pointer into it is the rest of the list, and NULL is `none`.
use for_ysyx_self_store_by_h.Base.{
  ℕ, ◌+◌, ◌-◌, ◌*◌, ◌^◌, Bool, true, false, ◌&&◌, ◌||◌, Option, none, some, List, [], ◌∷◌,
  if◌then◌else◌, ltb, leb, ◌==◌,
}

-- isspace, in the C locale.
abbrev pub is_space : ℕ → Bool
is_space c = c == b' ' || (leb 9 c && leb c 13)

unfoldable pub skip_spaces : List ℕ → List ℕ
skip_spaces [] = []
skip_spaces (c ∷ s) = let rest = skip_spaces s in if is_space c then rest else c ∷ s

abbrev pub is_empty : List ℕ → Bool
is_empty [] = true
is_empty (c ∷ s) = false

-- Whether a text is the same as another, strcmp(…) == 0.
abbrev pub same_text : List ℕ → List ℕ → Bool
same_text [] [] = true
same_text [] (d ∷ t) = false
same_text (c ∷ s) [] = false
same_text (c ∷ s) (d ∷ t) = c == d && same_text s t

-- The value of a digit, or 36 for any other character.
unfoldable pub digit_value : ℕ → ℕ
digit_value c =
    if leb b'0' c && leb c b'9'
    then c - b'0'
    else if leb b'a' c && leb c b'z'
    then c - b'a' + 10
    else if leb b'A' c && leb c b'Z'
    then c - b'A' + 10
    else 36

-- The digits in front of a text, behind digits of the value `acc`: the value of all, and the rest.
unfoldable pub read_digits : ℕ → ℕ → List ℕ → ℕ × List ℕ
read_digits base acc [] = (acc, [])
read_digits base acc (c ∷ s) =
    let rest = read_digits base (acc * base + digit_value c) s in
    if ltb (digit_value c) base then rest else (acc, c ∷ s)

abbrev pub starts_digit : ℕ → List ℕ → Bool
starts_digit base [] = false
starts_digit base (c ∷ s) = ltb (digit_value c) base

-- A number without sign and prefix; `none` if there is no digit.
abbrev pub read_number : ℕ → List ℕ → Option (ℕ × List ℕ)
read_number base s = if starts_digit base s then some (read_digits base 0 s) else none

-- In base 0, 0x is the prefix of base 16 if a digit follows, and 0 that of base 8.
abbrev pub read_prefixed : List ℕ → Option (ℕ × List ℕ)
read_prefixed (c ∷ x ∷ s) =
    if c == b'0'
    then if (x == b'x' || x == b'X') && starts_digit 16 s
      then read_number 16 s
      else read_number 8 (c ∷ x ∷ s)
    else read_number 10 (c ∷ x ∷ s)
read_prefixed s = read_number 10 s

abbrev pub skip_plus : List ℕ → List ℕ
skip_plus [] = []
skip_plus (c ∷ s) = if c == b'+' then s else c ∷ s

-- strtoull for the bases 10 and 0, on a text that starts neither with a space nor with a minus sign:
-- the number, which is out of range (ERANGE) from 2 ^ 64 on, and the rest; `none` is `tail == start`.
unfoldable pub strtoull : ℕ → List ℕ → Option (ℕ × List ℕ)
unfolding read_digits digit_value
strtoull base s = if base == 0 then read_prefixed (skip_plus s) else read_number base (skip_plus s)

abbrev pub starts_minus : List ℕ → Bool
starts_minus [] = false
starts_minus (c ∷ s) = c == b'-'

-- What is behind the conversion.
abbrev pub in_range : Option (ℕ × List ℕ) → Option (ℕ × List ℕ)
in_range none = none
in_range (some (n, tail)) = if leb (2 ^ 64) n then none else some (n, tail)

-- `none` is the result false.
unfoldable pub parse_uint64 : Option (List ℕ) → ℕ → Option (ℕ × List ℕ)
parse_uint64 none base = none
parse_uint64 (some text) base =
    let start = skip_spaces text in
    if is_empty start || starts_minus start then none else in_range (strtoull base start)

-- strtok(s, " "): the first token, and the text behind the space that ends it. A text without a
-- token is `none`.
unfoldable pub skip_blanks : List ℕ → List ℕ
skip_blanks [] = []
skip_blanks (c ∷ s) = let rest = skip_blanks s in if c == b' ' then rest else c ∷ s

unfoldable pub take_token : List ℕ → List ℕ × List ℕ
take_token [] = ([], [])
take_token (c ∷ s) = let rest = take_token s in if c == b' ' then ([], s) else (c ∷ rest.0, rest.1)

unfoldable pub strtok : List ℕ → Option (List ℕ × List ℕ)
unfolding skip_blanks take_token
strtok s = let start = skip_blanks s in if is_empty start then none else some (take_token start)
