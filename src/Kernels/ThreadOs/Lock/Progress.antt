-- ===== src/Kernels/ThreadOs/Lock/Progress.antt =====
-- The lock of ysyx-workbench/am-kernels/kernels/thread-os/thread-os.c never blocks for good.
use for_ysyx_self_store_by_h.Base.{
  ℕ, ◌≡◌, ◌⊎◌, inl, inr, refl, ap, sym, ◌∙◌, arith, [], ◌∷◌, ◌==◌, update, Bool-cases,
}
use for_ysyx_self_store_by_h.Kernels.ThreadOs.Lock.{
  locking, printing, delaying, Locks, func, interleaved, Reachable,
}
use for_ysyx_self_store_by_h.Kernels.ThreadOs.Lock.Excludes.{
  moved, locking_is_not_printing, Reachable-IsGuarded,
}

func-takes :
    (i : ℕ) (s : Locks) → s.locked ≡ 0 → s.phase i ≡ locking → (func i s).phase i ≡ printing
unfolding func
func-takes i s is_free waits = rw (waits, func) (rw is_free (ground arith))

func-releases :
    (j : ℕ) (s : Locks)
    → s.phase j ≡ printing
    → func j s ≡ record { locked = 0; phase = update s.phase j delaying }
unfolding func
func-releases j s prints = rw (prints, func) refl

-- A task that waits for the lock can get it from every reachable state: by its own step, or by one step
-- of the task that prints and then its own.
pub Reachable-progress :
    {s : Locks} (i : ℕ)
    → Reachable s
    → s.phase i ≡ locking
    → ((interleaved (i ∷ []) s).phase i ≡ printing)
      ⊎ ((j : ℕ) × (s.phase j ≡ printing) × ((interleaved (j ∷ i ∷ []) s).phase i ≡ printing))
unfolding interleaved
Reachable-progress {s} i r waits =
    let g = Reachable-IsGuarded r in
    elim (Bool-cases (s.locked == 0)) [
      | inl is_free ↦ inl (func-takes i s (ground (arith, is_free)) waits)
      | inr taken ↦
          let (j, prints) = g.held (ground (arith, taken)) in
          elim (moved s.phase j i delaying) [
            | inl (same, at) ↦
                absurd (locking_is_not_printing (sym waits ∙ ap s.phase (sym same) ∙ prints))
            | inr (differ, at) ↦ inr (
              j,
              prints,
              func-takes i (func j s) (ap (λ t. t.locked) (func-releases j s prints))
                  (ap (λ t. t.phase i) (func-releases j s prints) ∙ at ∙ waits),
            )
          ]
    ]
