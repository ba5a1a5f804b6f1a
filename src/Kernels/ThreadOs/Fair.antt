-- ===== src/Kernels/ThreadOs/Fair.antt =====
-- Every task gets its turn: ysyx-workbench/am-kernels/kernels/thread-os/thread-os.c.
use for_ysyx_self_store_by_h.Base.{
  ℕ, zero, suc, ◌%◌, ◌<◌, ◌≤◌, ◌≡◌, refl, ap, ◌∙◌, arith, Bool, true, not, ◌&&◌, ◌||◌, some, List,
  ltb, leb, ◌==◌, if◌then◌else◌, passes_below, passes_below-lt,
}
use for_ysyx_self_store_by_h.Kernels.ThreadOs.{Os, nr_tasks, interrupts}
use for_ysyx_self_store_by_h.Kernels.ThreadOs.Turns.{turn}
use for_ysyx_self_store_by_h.Kernels.ThreadOs.Schedules.{IsAssigned}
use for_ysyx_self_store_by_h.Kernels.ThreadOs.Runs.{AreOn, nr_on, turns, interrupts-turns}

-- How many interrupts, looking at most so many ahead, lead a CPU from the task `t` to the task `u`.
abbrev wait : ℕ → ℕ → ℕ → ℕ → ℕ → ℕ
wait zero k cpu t u = 0
wait (suc n) k cpu t u =
    let rest = wait n k cpu (turn k cpu t) u in if turn k cpu t == u then 1 else suc rest

abbrev reaches : ℕ → ℕ → ℕ → ℕ → Bool
reaches k cpu t u =
    not (ltb cpu k && (t % k == cpu) && (u % k == cpu))
    || (ltb 0 (wait 5 k cpu t u)
        && leb (wait 5 k cpu t u) 5
        && (turns k cpu (wait 5 k cpu t u) t == u))

every_task_is_reached :
    passes_below
      (λ k. passes_below (λ cpu. passes_below (λ t. passes_below (reaches k cpu t) 5) 5) 5)
      6
    ≡ true
unfolding passes_below turns
every_task_is_reached = refl

wait-turns :
    (k cpu t u : ℕ)
    → cpu < k
    → k ≤ nr_tasks
    → t < nr_tasks
    → u < nr_tasks
    → t % k ≡ cpu
    → u % k ≡ cpu
    → (0 < wait 5 k cpu t u) × (wait 5 k cpu t u ≤ 5) × (turns k cpu (wait 5 k cpu t u) t ≡ u)
wait-turns k cpu t u below few task_t task_u own_t own_u =
    let at_k =
      passes_below-lt
        (λ k. passes_below (λ cpu. passes_below (λ t. passes_below (reaches k cpu t) 5) 5) 5) 6 k
        every_task_is_reached (omega arith) in
    let at_cpu =
      passes_below-lt (λ cpu. passes_below (λ t. passes_below (reaches k cpu t) 5) 5) 5 cpu at_k
        (omega arith) in
    let at_t = passes_below-lt (λ t. passes_below (reaches k cpu t) 5) 5 t at_cpu task_t in
    let at_u = passes_below-lt (reaches k cpu t) 5 u at_t task_u in
    split (wait 5 k cpu t u) (turns k cpu (wait 5 k cpu t u) t) at_u
  where
    split :
        (n v : ℕ)
        → (not (ltb cpu k && (t % k == cpu) && (u % k == cpu)) || (ltb 0 n && leb n 5 && (v == u)))
          ≡ true
        → (0 < n) × (n ≤ 5) × (v ≡ u)
    split n v h = (ground arith, ground arith, ground arith)

-- While at most as many CPUs as tasks take interrupts, from any state in which the tasks are in a ring
-- and no CPU runs but its own: for every task of a CPU that runs one there is a number of interrupts of
-- this CPU, from one to five, behind which it runs, whatever interrupts the other CPUs take between.
pub interrupts-fair :
    {C : Type 0} (k cpu t u : ℕ) (os : Os C)
    → cpu < k
    → k ≤ nr_tasks
    → IsAssigned k os
    → os.currents cpu ≡ some t
    → u < nr_tasks
    → u % k ≡ cpu
    → (n : ℕ) × (0 < n)
      × (n ≤ 5)
      × ((es : List (ℕ × C))
          → AreOn k es
          → nr_on cpu es ≡ n
          → (os' : Os C) × (interrupts 5 k es os ≡ some os') × (os'.currents cpu ≡ some u))
interrupts-fair k cpu t u os below few h runs task own =
    let (task_t, own_t) = h.own cpu t runs in
    let (some_wait, short, reached) = wait-turns k cpu t u below few task_t task own_t own in
    (
      wait 5 k cpu t u,
      some_wait,
      short,
      λ es on count.
          let (os', done, h', further) = interrupts-turns k es os few on h in
          (
            os',
            done,
            further cpu t runs ∙ ap (λ n. some (turns k cpu n t)) count ∙ ap some reached,
          ),
    )
