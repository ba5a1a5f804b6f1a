-- ===== src/Kernels/ThreadOs.antt =====
-- The scheduler of ysyx-workbench/am-kernels/kernels/thread-os/thread-os.c. `C` is Context; kcontext,
-- cpu_count and cpu_current belong to the abstract machine and are arguments. A pointer into tasks is
-- an index. An interrupt touches only what belongs to its CPU, and is one step.
pub mod Turns
pub mod Schedules
pub mod Interrupts
pub mod Runs
pub mod Fair
pub mod Hangs
pub mod Lock
mod Examples
use for_ysyx_self_store_by_h.Base.{
  ℕ, zero, suc, ◌+◌, ◌*◌, ◌%◌, Bool, true, false, Option, none, some, List, [], ◌∷◌, ◌==◌, ltb,
  update,
}

-- Task; `entry` is func everywhere.
pub record Task (C : Type 0) : Type 0 where
  pub name : ℕ
  pub next : ℕ
  pub context : C

-- MAX_CPU.
abbrev pub max_cpu : ℕ
max_cpu = 8

-- currents, an array of MAX_CPU pointers, and tasks.
pub record Os (C : Type 0) : Type 0 where
  pub currents : ℕ → Option ℕ
  pub tasks : ℕ → Task C

-- LENGTH(tasks).
abbrev pub nr_tasks : ℕ
nr_tasks = 5

-- The stack of a task, with sizeof(Task) = 4096 * 3, behind four pointers of `w` bytes.
abbrev pub stack_of : ℕ → ℕ → ℕ → ℕ × ℕ
stack_of w tasks i = (tasks + i * 12288 + 4 * w, tasks + (i + 1) * 12288)

-- main, up to mpe_init: the tasks A to E in a ring. `tasks` is the address of the array.
unfoldable pub main : {C : Type 0} → (ℕ × ℕ → ℕ → C) → ℕ → ℕ → Os C
main kcontext w tasks = record {
  currents = λ cpu. none;
  tasks = λ i. record {
    name = 65 + i;
    next = (i + 1) % nr_tasks;
    context = kcontext (stack_of w tasks i) (65 + i);
  };
}

-- The loop of on_interrupt, for at most so many rounds; none if they were used up.
unfoldable pub find_task : ℕ → (ℕ → ℕ) → ℕ → ℕ → ℕ → Option ℕ
find_task zero next cpu_count cpu t = none
find_task (suc n) next cpu_count cpu t = elim (next t % cpu_count == cpu) [
  | true ↦ some (next t)
  | false ↦ find_task n next cpu_count cpu (next t)
]

-- How on_interrupt ends: it returns a context, its rounds are used up, or an access to currents is out
-- of range.
pub data Outcome (C : Type 0) : Type 0 where
  returned : Os C → C → Outcome C
  looping out_of_range : Outcome C

module _ {C : Type 0} (rounds cpu_count : ℕ) where
  -- From the task `t` on.
  abbrev pub switch : ℕ → ℕ → Os C → Outcome C
  switch cpu t os = elim (find_task rounds (λ i. (os.tasks i).next) cpu_count cpu t) [
    | none ↦ looping
    | some u ↦
        returned (record os { currents = update os.currents cpu (some u) }) (os.tasks u).context
  ]

  abbrev pub save : ℕ → C → Os C → Os C
  save t ctx os = record os { tasks = update os.tasks t (record (os.tasks t) { context = ctx }) }

  -- On the CPU `cpu`, that cpu_current returns.
  unfoldable pub on_interrupt : ℕ → C → Os C → Outcome C
  on_interrupt cpu ctx os = elim (ltb cpu max_cpu) [
    | false ↦ out_of_range
    | true ↦ elim (os.currents cpu) [
      | none ↦ switch cpu 0 os
      | some t ↦ switch cpu t (save t ctx os)
    ]
  ]

  -- Interrupts, each with its CPU and the context it interrupts, in the order in which they come; none if one
  -- of them is not handled.
  unfoldable pub interrupts : List (ℕ × C) → Os C → Option (Os C)
  interrupts [] os = some os
  interrupts ((cpu, ctx) ∷ later) os = elim (on_interrupt cpu ctx os) [
    | returned os' resumed ↦ interrupts later os'
    | looping ↦ none
    | out_of_range ↦ none
  ]
