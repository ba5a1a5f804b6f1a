-- ===== src/Klib/Numbers.antt =====
-- What rand and atoi of ysyx-workbench/abstract-machine/klib/src/stdlib.c return.
use for_ysyx_self_store_by_h.Base.{
  ℕ, zero, suc, ◌+◌, ◌-◌, ◌*◌, ◌%◌, ◌^◌, ◌≤◌, ◌<◌, true, false, ◌≡◌, refl, ap, arith, some, List,
  [], ◌∷◌, ◌++◌, ltb, ◌==◌,
}
use for_ysyx_self_store_by_h.Klib.{rand, srand, abs, drop_blanks, is_digit, add_digits, atoi}

-- The first `n` results of rand.
abbrev rands : ℕ → ℕ → ℕ → List ℕ
rands w next zero = []
rands w next (suc n) = (rand w next).0 ∷ rands w (rand w next).1 n

rand-width :
    (m n : ℕ)
    → m % 2 ^ 32 ≡ n
    → ((rand 64 m).0 ≡ (rand 32 n).0) × ((rand 64 m).1 % 2 ^ 32 ≡ (rand 32 n).1)
unfolding rand
rand-width m n h = omega arith

rands-width : (k m n : ℕ) → m % 2 ^ 32 ≡ n → rands 64 m k ≡ rands 32 n k
rands-width zero m n h = refl
rands-width (suc k) m n h =
    let (same, low) = rand-width m n h in
    rw same (ap ((rand 32 n).0 ∷◌) (rands-width k (rand 64 m).1 (rand 32 n).1 low))

-- From the same seed of an unsigned int, rand returns the same numbers whether an unsigned long has 64
-- bits or 32.
srand-rands : (k seed : ℕ) → seed < 2 ^ 32 → rands 64 (srand seed) k ≡ rands 32 (srand seed) k
srand-rands k seed h = rands-width k seed seed (omega arith)

-- Every number and its negative have the same absolute value.
abs-negated : (x : ℕ) → x < 2 ^ 32 → abs ((2 ^ 32 - x) % 2 ^ 32) ≡ abs x
unfolding abs
abs-negated x h = ground arith

-- The number that decimal digits stand for, behind digits of the value `acc`.
abbrev digits_value : ℕ → List ℕ → ℕ
digits_value acc [] = acc
digits_value acc (d ∷ ds) = digits_value (acc * 10 + (d - b'0')) ds

abbrev IsDigits : List ℕ → Type 0
IsDigits [] = Unit
IsDigits (d ∷ ds) = (is_digit d ≡ true) × IsDigits ds

abbrev IsNoDigit : List ℕ → Type 0
IsNoDigit [] = Unit
IsNoDigit (c ∷ s) = is_digit c ≡ false

abbrev IsBlanks : List ℕ → Type 0
IsBlanks [] = Unit
IsBlanks (b ∷ bs) = ((b == b' ') ≡ true) × IsBlanks bs

drop_blanks-IsBlanks : (bs s : List ℕ) → IsBlanks bs → drop_blanks (bs ++ s) ≡ drop_blanks s
unfolding drop_blanks
drop_blanks-IsBlanks [] s h = refl
drop_blanks-IsBlanks (b ∷ bs) s h = rw (h.0) (drop_blanks-IsBlanks bs s h.1)

digits_value-grows : (acc : ℕ) (ds : List ℕ) → acc ≤ digits_value acc ds
digits_value-grows acc [] = omega arith
digits_value-grows acc (d ∷ ds) =
    let tail = digits_value-grows (acc * 10 + (d - b'0')) ds in omega arith

add_digits-IsDigits :
    (acc : ℕ) (ds rest : List ℕ)
    → IsDigits ds
    → IsNoDigit rest
    → digits_value acc ds + b'0' < 2 ^ 31
    → add_digits acc (ds ++ rest) ≡ some (digits_value acc ds)
unfolding add_digits
add_digits-IsDigits acc [] [] h e small = refl
add_digits-IsDigits acc [] (c ∷ rest) h e small = rw e refl
add_digits-IsDigits acc (d ∷ ds) rest h e small =
    let grows = digits_value-grows (acc * 10 + (d - b'0')) ds in
    let same : acc * 10 + d - b'0' ≡ acc * 10 + (d - b'0') = ground (arith, h.0) in
    let fits : ltb (acc * 10 + d) (2 ^ 31) ≡ true = ground (arith, h.0) in
    rw (h.0) (rw fits (rw same (add_digits-IsDigits (acc * 10 + (d - b'0')) ds rest h.1 e small)))

-- On blanks, at least one decimal digit, and a text that does not start with one, atoi returns the
-- number that the digits stand for if that is at least 48 below 2 ^ 31.
atoi-decimal :
    (bs : List ℕ) (d : ℕ) (ds rest : List ℕ)
    → IsBlanks bs
    → IsDigits (d ∷ ds)
    → IsNoDigit rest
    → digits_value 0 (d ∷ ds) + b'0' < 2 ^ 31
    → atoi (bs ++ d ∷ (ds ++ rest)) ≡ some (digits_value 0 (d ∷ ds))
unfolding atoi drop_blanks
atoi-decimal bs d ds rest hb h e small =
    let no_blank : (d == b' ') ≡ false = ground (arith, h.0) in
    rw (drop_blanks-IsBlanks bs (d ∷ (ds ++ rest)) hb)
      (rw no_blank (add_digits-IsDigits 0 (d ∷ ds) rest h e small))
