-- ===== src/Kernels/ThreadOs/Schedules.antt =====
-- What on_interrupt does: ysyx-workbench/am-kernels/kernels/thread-os/thread-os.c.
use for_ysyx_self_store_by_h.Base.{
  ℕ, ◌%◌, ◌<◌, ◌≤◌, ◌≡◌, ◌≢◌, inl, inr, refl, ap, ◌∙◌, arith, Option, none, some, ◌==◌, update,
  Bool-cases,
}
use for_ysyx_self_store_by_h.Kernels.ThreadOs.{
  Os, nr_tasks, main, Outcome, returned, looping, switch,
}
use for_ysyx_self_store_by_h.Kernels.ThreadOs.Turns.{
  ring, turn, first, find_task-turn, find_task-ring,
}

-- The tasks are in a ring, and a CPU runs none but its own.
pub record IsAssigned {C : Type 0} (k : ℕ) (os : Os C) : Type 0 where
  pub linked : (i : ℕ) → i < nr_tasks → (os.tasks i).next ≡ ring i
  pub own : (cpu t : ℕ) → os.currents cpu ≡ some t → (t < nr_tasks) × (t % k ≡ cpu)

pub main-IsAssigned :
    {C : Type 0} (k : ℕ) (kcontext : ℕ × ℕ → ℕ → C) (w tasks : ℕ)
    → IsAssigned k (main kcontext w tasks)
unfolding main
main-IsAssigned k kcontext w tasks = record {
  linked = λ i small. refl;
  own = λ cpu t e. ground (arith, e);
}

-- The task `u` runs on: its context is what is returned, the CPU has it, and nothing else changes.
pub record Resumed {C : Type 0} (k cpu : ℕ) (os os' : Os C) (resumed : C) (u : ℕ) : Type 0 where
  pub runs : os'.currents cpu ≡ some u
  pub others : (other : ℕ) → other ≢ cpu → os'.currents other ≡ os.currents other
  pub same_tasks : os'.tasks ≡ os.tasks
  pub context : resumed ≡ (os.tasks u).context
  pub assigned : IsAssigned k os'

update-at : {A : Type 0} (a : ℕ → A) (i : ℕ) (v : A) → update a i v i ≡ v
update-at a i v = ground arith

update-other : {A : Type 0} (a : ℕ → A) (i : ℕ) (v : A) (j : ℕ) → j ≢ i → update a i v j ≡ a j
update-other a i v j differ = ground (arith, differ)

pub update-own :
    {C : Type 0} (k cpu u : ℕ) (os : Os C)
    → IsAssigned k os
    → u < nr_tasks
    → u % k ≡ cpu
    → IsAssigned k (record os { currents = update os.currents cpu (some u) })
update-own k cpu u os h task own = record {
  linked = h.linked;
  own = λ other t e. elim (Bool-cases (cpu == other)) [
    | inl same ↦ ground (arith, e)
    | inr differ ↦ h.own other t (ground (arith, e))
  ];
}

-- From any task, the loop ends within five rounds.
pub switch-Resumed :
    {C : Type 0} (k cpu t : ℕ) (os : Os C)
    → cpu < k
    → k ≤ nr_tasks
    → t < nr_tasks
    → IsAssigned k os
    → (os' : Os C) × (resumed : C) × (u : ℕ) × (switch 5 k cpu t os ≡ returned os' resumed)
      × Resumed k cpu os os' resumed u
      × (u < nr_tasks)
      × (u % k ≡ cpu)
      × (t % k ≡ cpu → u ≡ turn k cpu t)
      × (t ≡ 0 → u ≡ first k cpu)
switch-Resumed {C} k cpu t os below few task h =
    let next : ℕ → ℕ = λ i. (os.tasks i).next in
    let (u, found, small, own, turns, begins) = find_task-turn k cpu t below few task in
    let os' : Os C = record os { currents = update os.currents cpu (some u) } in
    (
      os',
      (os.tasks u).context,
      u,
      ap resume (find_task-ring 5 next k cpu t h.linked task ∙ found),
      record {
        runs = update-at os.currents cpu (some u);
        others = λ other differ. update-other os.currents cpu (some u) other differ;
        same_tasks = refl;
        context = refl;
        assigned = update-own k cpu u os h small own;
      },
      small,
      own,
      turns,
      begins,
    )
  where
    resume : Option ℕ → Outcome C
    resume o = elim o [
      | none ↦ looping
      | some u ↦
          returned (record os { currents = update os.currents cpu (some u) }) (os.tasks u).context
    ]
