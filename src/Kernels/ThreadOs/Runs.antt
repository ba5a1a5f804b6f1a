-- ===== src/Kernels/ThreadOs/Runs.antt =====
-- Sequences of interrupts on all CPUs: ysyx-workbench/am-kernels/kernels/thread-os/thread-os.c.
use for_ysyx_self_store_by_h.Base.{
  ℕ, zero, suc, ◌<◌, ◌≤◌, ◌≡◌, inl, inr, refl, ap, sym, subst, ◌∙◌, arith, Option, none, some, List,
  [], ◌∷◌, ◌==◌, if◌then◌else◌, Bool-cases,
}
use for_ysyx_self_store_by_h.Kernels.ThreadOs.{
  Outcome, returned, looping, out_of_range, Os, nr_tasks, main, interrupts,
}
use for_ysyx_self_store_by_h.Kernels.ThreadOs.Turns.{turn}
use for_ysyx_self_store_by_h.Kernels.ThreadOs.Schedules.{IsAssigned, main-IsAssigned}
use for_ysyx_self_store_by_h.Kernels.ThreadOs.Interrupts.{on_interrupt-Switched}

-- Every interrupt is on one of the first `k` CPUs.
unfoldable pub AreOn : {C : Type 0} → ℕ → List (ℕ × C) → Type 0
AreOn k [] = Unit
AreOn k ((cpu, ctx) ∷ es) = (cpu < k) × AreOn k es

-- The number of interrupts on a CPU.
unfoldable pub nr_on : {C : Type 0} → ℕ → List (ℕ × C) → ℕ
nr_on cpu [] = 0
nr_on cpu ((at, ctx) ∷ es) = let rest = nr_on cpu es in if at == cpu then suc rest else rest

-- So many tasks further.
unfoldable pub turns : ℕ → ℕ → ℕ → ℕ → ℕ
turns k cpu zero t = t
turns k cpu (suc n) t = turns k cpu n (turn k cpu t)

-- Two CPUs never run the same task.
pub record IsExclusive {C : Type 0} (os : Os C) : Type 0 where
  pub exclusive : (a b t : ℕ) → os.currents a ≡ some t → os.currents b ≡ some t → a ≡ b

pub IsAssigned-IsExclusive : {C : Type 0} (k : ℕ) (os : Os C) → IsAssigned k os → IsExclusive os
IsAssigned-IsExclusive k os h = record {
  exclusive = λ a b t at_a at_b.
      let (_, mine) = h.own a t at_a in let (_, yours) = h.own b t at_b in sym mine ∙ yours;
}

-- Every interrupt on a CPU takes it one task further, whatever the others do.
pub interrupts-turns :
    {C : Type 0} (k : ℕ) (es : List (ℕ × C)) (os : Os C)
    → k ≤ nr_tasks
    → AreOn k es
    → IsAssigned k os
    → (os' : Os C) × (interrupts 5 k es os ≡ some os')
      × IsAssigned k os'
      × ((cpu t : ℕ)
          → os.currents cpu ≡ some t
          → os'.currents cpu ≡ some (turns k cpu (nr_on cpu es) t))
unfolding interrupts AreOn nr_on turns
interrupts-turns k [] os few on h = (os, refl, h, λ cpu t e. e)
interrupts-turns {C} k ((at, ctx) ∷ es) os few on h =
    let (here, later) = on in
    let (os1, resumed, u, done, s) = on_interrupt-Switched k at ctx os here few h in
    let (os', runs, h', further) = interrupts-turns k es os1 few later (s.assigned) in
    (
      os',
      ap onward done ∙ runs,
      h',
      λ cpu t e. elim (Bool-cases (at == cpu)) [
        | inl same ↦
            let moved =
              subst (λ c. os.currents c ≡ some t → os1.currents c ≡ some (turn k c t))
                (ground (arith, same)) (λ e'. s.runs ∙ ap some (s.turns t e')) e in
            rw same (further cpu (turn k cpu t) moved)
        | inr differ ↦ rw differ (further cpu t (s.others cpu (ground (arith, differ)) ∙ e))
      ],
    )
  where
    onward : Outcome C → Option (Os C)
    onward o = elim o [
      | returned os' resumed ↦ interrupts 5 k es os'
      | looping ↦ none
      | out_of_range ↦ none
    ]

-- From the start, with at most as many CPUs as tasks, after any sequence of interrupts on them: every
-- interrupt has been handled, and no two CPUs run the same task.
pub interrupts-IsExclusive :
    {C : Type 0} (k : ℕ) (kcontext : ℕ × ℕ → ℕ → C) (w tasks : ℕ) (es : List (ℕ × C))
    → k ≤ nr_tasks
    → AreOn k es
    → (os : Os C) × (interrupts 5 k es (main kcontext w tasks) ≡ some os) × IsExclusive os
interrupts-IsExclusive k kcontext w tasks es few on =
    let (os, done, h, _) =
      interrupts-turns k es (main kcontext w tasks) few on (main-IsAssigned k kcontext w tasks) in
    (os, done, IsAssigned-IsExclusive k os h)
