-- ===== src/Kernels/ThreadOs/Examples.antt =====
-- The theorems on the scheduler of thread-os at concrete inputs. A context is a number.
use for_ysyx_self_store_by_h.Base.{
  ℕ, ◌<◌, ◌≤◌, ◌≡◌, ◌⊎◌, refl, arith, Option, none, some, List, [], ◌∷◌, update,
}
use for_ysyx_self_store_by_h.Kernels.ThreadOs.{
  Outcome, returned, looping, out_of_range, Os, main, on_interrupt, interrupts, find_task,
}
use for_ysyx_self_store_by_h.Kernels.ThreadOs.Schedules.{main-IsAssigned, update-own}
use for_ysyx_self_store_by_h.Kernels.ThreadOs.Interrupts.{Switched, on_interrupt-Switched}
use for_ysyx_self_store_by_h.Kernels.ThreadOs.Runs.{
  AreOn, nr_on, IsExclusive, interrupts-IsExclusive,
}
use for_ysyx_self_store_by_h.Kernels.ThreadOs.Fair.{interrupts-fair}
use for_ysyx_self_store_by_h.Kernels.ThreadOs.Hangs.{on_interrupt-hangs}
use for_ysyx_self_store_by_h.Kernels.ThreadOs.Lock.{
  Locks, locking, printing, func, interleaved, initial, Reachable, start, step,
}
use for_ysyx_self_store_by_h.Kernels.ThreadOs.Lock.Excludes.{IsGuarded, Reachable-IsGuarded}
use for_ysyx_self_store_by_h.Kernels.ThreadOs.Lock.Progress.{Reachable-progress}

-- kcontext names a context by the entry's argument.
abbrev kcontext : ℕ × ℕ → ℕ → ℕ
kcontext stack name = name

abbrev at_start : Os ℕ
at_start = main kcontext 8 4096

-- CPU 0, of two, runs task C.
abbrev begun : Os ℕ
begun = record at_start { currents = update at_start.currents 0 (some 2) }

abbrev context_of : Outcome ℕ → Option ℕ
context_of o = elim o [ returned os resumed ↦ some resumed | looping ↦ none | out_of_range ↦ none ]

-- A single CPU begins with task B; behind E comes A.
single_begins : context_of (on_interrupt 5 1 0 900 at_start) ≡ some 66
unfolding main on_interrupt find_task
single_begins = refl

around :
    context_of
      (on_interrupt 5 1 0 900 (record at_start { currents = update at_start.currents 0 (some 4) }))
    ≡ some 65
unfolding main on_interrupt find_task
around = refl

-- Of two CPUs, CPU 0 goes from C to E, and then to A.
abbrev mixed : List (ℕ × ℕ)
mixed = (0, 900) ∷ (1, 901) ∷ (0, 902) ∷ []

mixed-AreOn : AreOn 2 mixed
unfolding AreOn
mixed-AreOn = (omega arith, (omega arith, (omega arith, tt)))

on_interrupt-Switched_example :
    (os' : Os ℕ) × (resumed : ℕ) × (u : ℕ) × (on_interrupt 5 2 0 900 at_start
      ≡ returned os' resumed)
    × Switched 2 0 900 at_start os' resumed u
on_interrupt-Switched_example =
    on_interrupt-Switched 2 0 900 at_start (omega arith) (omega arith)
      (main-IsAssigned 2 kcontext 8 4096)

interrupts-IsExclusive_example :
    (os : Os ℕ) × (interrupts 5 2 mixed at_start ≡ some os) × IsExclusive os
interrupts-IsExclusive_example =
    interrupts-IsExclusive 2 kcontext 8 4096 mixed (omega arith) mixed-AreOn

on_interrupt-hangs_example : on_interrupt 1000 8 5 900 at_start ≡ looping
on_interrupt-hangs_example =
    on_interrupt-hangs 1000 8 5 900 at_start (omega arith) (omega arith)
      (main-IsAssigned 8 kcontext 8 4096)

interrupts-fair_example :
    (n : ℕ) × (0 < n)
    × (n ≤ 5)
    × ((es : List (ℕ × ℕ))
        → AreOn 2 es
        → nr_on 0 es ≡ n
        → (os' : Os ℕ) × (interrupts 5 2 es begun ≡ some os') × (os'.currents 0 ≡ some 0))
interrupts-fair_example =
    interrupts-fair 2 0 2 0 begun (omega arith) (omega arith)
      (update-own 2 0 2 at_start (main-IsAssigned 2 kcontext 8 4096) (omega arith) refl) refl
      (omega arith) refl

-- Task B waits while task A prints.
abbrev contended : Locks
contended = func 1 (func 0 initial)

contended-Reachable : Reachable contended
contended-Reachable = step 1 (step 0 start)

contended_waits : contended.phase 1 ≡ locking
unfolding func
contended_waits = refl

Reachable-IsGuarded_example : IsGuarded contended
Reachable-IsGuarded_example = Reachable-IsGuarded contended-Reachable

Reachable-progress_example :
    ((interleaved (1 ∷ []) contended).phase 1 ≡ printing)
    ⊎ ((j : ℕ) × (contended.phase j ≡ printing)
        × ((interleaved (j ∷ 1 ∷ []) contended).phase 1 ≡ printing))
Reachable-progress_example = Reachable-progress 1 contended-Reachable contended_waits
