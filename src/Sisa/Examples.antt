-- ===== src/Sisa/Examples.antt =====
-- The theorems about the sISA emulator at concrete inputs, and tests.
use for_ysyx_self_store_by_h.Base.{◌≡◌, refl, none, some, [], ◌∷◌, arith}
use for_ysyx_self_store_by_h.Sisa.Machine.{
  title, State, inst_cycle, running, loop, start, pos, negsuc, boot,
}
use for_ysyx_self_store_by_h.Sisa.Sum.{loop-sum, halted}

loop-sum_example :
    (s : State) × (boot (some (pos 10)) ≡ some s) × (loop 135 s ≡ running (halted 10 55))
loop-sum_example = loop-sum 10 100 (omega arith) (omega arith)

-- Without an argument the sum is that of 1 to 10.
default_start : boot none ≡ some (record start { output = title 10 ∷ [] })
unfolding boot
default_start = refl

default_run : loop 35 (record start { output = title 10 ∷ [] }) ≡ running (halted 10 55)
unfolding loop inst_cycle
default_run = refl

-- The argument must be from 1 to 15.
rejected :
    (boot (some (pos 0)) ≡ none) × (boot (some (pos 16)) ≡ none) × (boot (some (negsuc 0)) ≡ none)
unfolding boot
rejected = (refl, refl, refl)
