-- ===== src/Sisa/Sum.antt =====
-- The program prints its title and the sum of 1 to n, and no more.
use for_ysyx_self_store_by_h.Base.{
  ℕ, zero, suc, ◌+◌, ◌*◌, ◌/◌, ◌<◌, ◌≤◌, ◌≡◌, ◌≢◌, refl, ap, true, false, ◌∙◌, some, List, [], ◌∷◌,
  arith, ◌==◌, if◌then◌else◌, set, u8, not, bits, bit_or, bit_and, passes_below, passes_below-lt,
  ==_iff,
}
use for_ysyx_self_store_by_h.Sisa.Machine.{
  title, value, State, inst_cycle, running, loop, program, start, pos, boot,
}

-- The program's memory for `n`: only the immediate of the first instruction differs.
abbrev pub memory_for : ℕ → List ℕ
memory_for n = set program 0 (0x80 + n)

-- At the head of the program's loop, with `i` in R[1] and `s` in R[2].
abbrev pub head_of_loop : ℕ → ℕ → ℕ → State
head_of_loop n i s = record {
  pc = 4;
  regs = n ∷ i ∷ s ∷ 1 ∷ [];
  memory = memory_for n;
  output = title n ∷ [];
}

-- One more cycle of the loop of main.
loop-step : (k : ℕ) (s t : State) → s.pc < 16 → inst_cycle s ≡ some t → loop (suc k) s ≡ loop k t
unfolding loop
loop-step k s t below e = ground (arith, e)

initial : ℕ → State
initial n = record start { memory = memory_for n; output = title n ∷ [] }

-- `(M[0] & 0xF0) | (n & 0x0F)` puts `n` into the immediate.
patched_byte : (n : ℕ) → n < 16 → bit_or (bit_and 0x8A 0xF0) (bit_and n 0x0F) ≡ 0x80 + n
unfolding passes_below
patched_byte n h =
    (==_iff _ (0x80 + n)).0
      (passes_below-lt (λ k. bit_or 0x80 (bit_and k 0x0F) == 0x80 + k) 16 n refl h)

boot-initial : (n : ℕ) → 0 < n → n ≤ 15 → boot (some (pos n)) ≡ some (initial n)
unfolding boot initial
boot-initial n low h = ground (arith, patched_byte n)

-- The four instructions before the program's loop.
first_cycle :
    (n : ℕ)
    → n ≤ 15
    → inst_cycle (initial n) ≡ some (record (initial n) { pc = 1; regs = n ∷ 0 ∷ 0 ∷ 0 ∷ [] })
unfolding initial inst_cycle
first_cycle n h =
    let opcode : bits (0x80 + n) 6 2 ≡ 2 = omega arith in
    let rd : bits (0x80 + n) 4 2 ≡ 0 = omega arith in
    let imm : bits (0x80 + n) 0 4 ≡ n = omega arith in rw (opcode, rd, imm) refl

setup :
    (k n : ℕ) → n ≤ 15 → loop (suc (suc (suc (suc k)))) (initial n) ≡ loop k (head_of_loop n 0 0)
unfolding initial inst_cycle
setup k n h =
    loop-step (suc (suc (suc k))) (initial n) _ (omega arith) (first_cycle n h)
    ∙ loop-step (suc (suc k)) _ _ (omega arith) refl
    ∙ loop-step (suc k) _ _ (omega arith) refl
    ∙ loop-step k _ _ (omega arith) refl

-- Past the program's loop, before the line is printed.
abbrev past_loop : ℕ → ℕ → State
past_loop n s = record (head_of_loop n n s) { pc = 7 }

branched : ℕ → ℕ → ℕ → State
branched n i s = if not (i == n) then head_of_loop n i s else record (head_of_loop n i s) { pc = 7 }

-- One round of the program's loop is three cycles.
round :
    (k n i s : ℕ)
    → i < 15
    → s < 120
    → loop (suc (suc (suc k))) (head_of_loop n i s) ≡ loop k (branched n (i + 1) (s + (i + 1)))
unfolding inst_cycle branched
round k n i s hi hs =
    let e : u8 (i + 1) ≡ i + 1 = omega arith in
    let f : u8 (s + (i + 1)) ≡ s + (i + 1) = omega arith in
    loop-step (suc (suc k)) (head_of_loop n i s) (record (head_of_loop n (i + 1) s) { pc = 5 })
      (omega arith) (rw e)
    ∙ loop-step (suc k) _ (record (head_of_loop n (i + 1) (s + (i + 1))) { pc = 6 }) (omega arith)
        (rw f)
    ∙ loop-step k _ (branched n (i + 1) (s + (i + 1))) (omega arith) refl

-- `left` rounds of the program's loop.
abbrev cycles : ℕ → ℕ → ℕ
cycles zero k = k
cycles (suc left) k = suc (suc (suc (cycles left k)))

square-le : (i : ℕ) → i < 15 → i * (i + 1) ≤ 210
square-le i h = grind arith

-- With the sum of 1 to `i` in R[2], the rest of the program's loop leaves the sum of 1 to `n` there.
sum_rounds :
    (left k n i s : ℕ)
    → i + suc left ≡ n
    → n ≤ 15
    → 2 * s ≡ i * (i + 1)
    → (r : ℕ) × (2 * r ≡ n * (n + 1))
      × (loop (cycles (suc left) k) (head_of_loop n i s) ≡ loop k (past_loop n r))
unfolding branched
sum_rounds zero k n i s e h sum =
    let last : (i + 1 == n) ≡ true = ground arith in
    let reach = round k n i s (omega arith) (omega (arith, square-le i (omega arith))) in
    let n_is : i + 1 ≡ n = omega arith in
    (s + (i + 1), rw (← n_is) (grind arith), reach ∙ ap (loop k) (rw (last, n_is)))
sum_rounds (suc left) k n i s e h sum =
    let more : (i + 1 == n) ≡ false = ground arith in
    let reach =
      round (cycles (suc left) k) n i s (omega arith) (omega (arith, square-le i (omega arith))) in
    let (r, total, rest) =
      sum_rounds left k n (i + 1) (s + (i + 1)) (omega arith) h (grind arith) in
    (r, total, reach ∙ ap (loop (cycles (suc left) k)) (rw more) ∙ rest)

-- The line is printed and PC stands at the jump to itself.
abbrev pub halted : ℕ → ℕ → State
halted n r = record {
  pc = 8;
  regs = n ∷ n ∷ r ∷ 1 ∷ [];
  memory = memory_for n;
  output = title n ∷ value 2 r ∷ [];
}

print_cycle : (k n r : ℕ) → loop (suc k) (past_loop n r) ≡ loop k (halted n r)
unfolding inst_cycle
print_cycle k n r = loop-step k (past_loop n r) (halted n r) (omega arith) refl

spins : (k n r : ℕ) → n ≢ 1 → loop k (halted n r) ≡ running (halted n r)
unfolding inst_cycle
spins zero n r h = unfold loop in refl
spins (suc k) n r h =
    let other : (1 == n) ≡ false = ground arith in
    loop-step k (halted n r) (halted n r) (omega arith) (rw other) ∙ spins k n r h

cycles-eq : (left k : ℕ) → cycles left k ≡ 3 * left + k
cycles-eq zero k = omega arith
cycles-eq (suc left) k = omega (arith, cycles-eq left k)

-- For an argument n from 2 to 15, main passes its assertion, and from round 3 * n + 5 on, however
-- long it runs, exactly two lines have been printed, the one that names n and the one with the sum of
-- 1 to n as the value of R[2]; PC stays at 8 and the loop of main does not end.
pub loop-sum :
    (n k : ℕ)
    → 1 < n
    → n ≤ 15
    → (s : State) × (boot (some (pos n)) ≡ some s)
      × (loop (3 * n + 5 + k) s ≡ running (halted n (n * (n + 1) / 2)))
loop-sum zero k low h = elim low [ ]
loop-sum (suc left) k low h =
    let n = suc left in
    let (r, total, reach) = sum_rounds left (suc k) n 0 0 (omega arith) h (omega arith) in
    let half : r ≡ n * (n + 1) / 2 = omega arith in
    let count : 3 * n + 5 + k ≡ suc (suc (suc (suc (cycles n (suc k))))) =
      omega (arith, cycles-eq n (suc k)) in
    (
      initial n,
      boot-initial n (omega arith) h,
      ap (λ m. loop m (initial n)) count
          ∙ setup (cycles n (suc k)) n h
          ∙ reach
          ∙ print_cycle k n r
          ∙ spins k n r (omega arith)
          ∙ ap (λ (v : ℕ). running (halted n v)) half,
    )
