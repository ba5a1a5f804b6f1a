-- ===== src/Klib.antt =====
-- ysyx-workbench/abstract-machine/klib/src/stdlib.c: rand, srand, abs and atoi. An int is the number
-- of its 32 bits, an unsigned long has `w` bits. Signed overflow, which C leaves undefined, is `none`.
mod Numbers
mod Examples
use for_ysyx_self_store_by_h.Base.{
  ℕ, ◌+◌, ◌-◌, ◌*◌, ◌/◌, ◌%◌, ◌^◌, Bool, ◌&&◌, Option, none, some, List, [], ◌∷◌, if◌then◌else◌,
  ltb, leb, ◌==◌,
}

-- The static variable next, when the program starts.
abbrev first_next : ℕ
first_next = 1

-- What rand returns, and the new value of next.
unfoldable pub rand : ℕ → ℕ → ℕ × ℕ
rand w next =
    let next' = (next * 1103515245 + 12345) % 2 ^ w in (next' / 65536 % 2 ^ 32 % 32768, next')

-- The new value of next. An unsigned int has 32 bits, and so it fits.
abbrev pub srand : ℕ → ℕ
srand seed = seed

unfoldable pub abs : ℕ → Option ℕ
abs x = if leb (2 ^ 31) x then if x == 2 ^ 31 then none else some (2 ^ 32 - x) else some x

unfoldable pub drop_blanks : List ℕ → List ℕ
drop_blanks [] = []
drop_blanks (c ∷ s) = let rest = drop_blanks s in if c == b' ' then rest else c ∷ s

abbrev pub is_digit : ℕ → Bool
is_digit c = leb b'0' c && leb c b'9'

-- The loop over the digits. The expression adds the character before it subtracts '0', and that sum
-- has to fit.
unfoldable pub add_digits : ℕ → List ℕ → Option ℕ
add_digits x [] = some x
add_digits x (c ∷ s) =
    let rest = add_digits (x * 10 + c - b'0') s in
    if is_digit c then if ltb (x * 10 + c) (2 ^ 31) then rest else none else some x

unfoldable pub atoi : List ℕ → Option ℕ
unfolding drop_blanks add_digits
atoi s = add_digits 0 (drop_blanks s)
