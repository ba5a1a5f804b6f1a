-- ===== src/Kernels/ThreadOs/Hangs.antt =====
-- More CPUs than tasks: ysyx-workbench/am-kernels/kernels/thread-os/thread-os.c.
use for_ysyx_self_store_by_h.Base.{
  ℕ, zero, suc, ◌%◌, ◌<◌, ◌≤◌, ◌≡◌, inl, inr, Option-cases, Bool-cases, ltb, if◌then◌else◌, refl,
  ap, ◌∙◌, arith, false, Option, update, none, some, ◌==◌,
}
use for_ysyx_self_store_by_h.Kernels.ThreadOs.{
  Os, nr_tasks, max_cpu, Outcome, returned, looping, out_of_range, find_task, on_interrupt,
}
use for_ysyx_self_store_by_h.Kernels.ThreadOs.Turns.{ring, find_task-ring}
use for_ysyx_self_store_by_h.Kernels.ThreadOs.Schedules.{IsAssigned}

none_is_own : (k cpu t : ℕ) → nr_tasks ≤ cpu → cpu < k → t < nr_tasks → (t % k == cpu) ≡ false
none_is_own k cpu t many below task = ground arith

find_task-hangs :
    (n k cpu t : ℕ) → nr_tasks ≤ cpu → cpu < k → t < nr_tasks → find_task n ring k cpu t ≡ none
unfolding find_task
find_task-hangs zero k cpu t many below task = refl
find_task-hangs (suc n) k cpu t many below task =
    let next : ring t < nr_tasks = omega arith in
    rw (none_is_own k cpu (ring t) many below next, find_task)
      (find_task-hangs n k cpu (ring t) many below next)

-- On a CPU with number five or more, with the tasks in a ring and no CPU running but its own:
-- on_interrupt never returns, however many rounds its loop is given, on CPUs 5 to 7; on a CPU with a
-- higher number its first access to currents is out of range.
pub on_interrupt-hangs :
    {C : Type 0} (rounds k cpu : ℕ) (ctx : C) (os : Os C)
    → nr_tasks ≤ cpu
    → cpu < k
    → IsAssigned k os
    → on_interrupt rounds k cpu ctx os ≡ (if ltb cpu max_cpu then looping else out_of_range)
unfolding on_interrupt
on_interrupt-hangs {C} rounds k cpu ctx os many below h = elim (Bool-cases (ltb cpu max_cpu)) [
  | inr beyond ↦ rw (beyond, on_interrupt) refl
  | inl in_range ↦
      rw (in_range, on_interrupt)
        (elim (Option-cases (os.currents cpu)) [
          | inl idle ↦
              let next : ℕ → ℕ = λ i. (os.tasks i).next in
              rw idle (
                ap resume (
                  find_task-ring rounds next k cpu 0 h.linked (omega arith)
                  ∙ find_task-hangs rounds k cpu 0 many below (omega arith)))
          | inr (t, busy) ↦
              let (task, mine) = h.own cpu t busy in
              let foreign = none_is_own k cpu t many below task in
              absurd (ground (arith, mine, foreign))
        ])
]
  where
    resume : Option ℕ → Outcome C
    resume o = elim o [
      | none ↦ looping
      | some u ↦
          returned (record os { currents = update os.currents cpu (some u) }) (os.tasks u).context
    ]
