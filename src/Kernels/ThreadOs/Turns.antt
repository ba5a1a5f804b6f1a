-- ===== src/Kernels/ThreadOs/Turns.antt =====
-- Which task follows, in ysyx-workbench/am-kernels/kernels/thread-os/thread-os.c.
use for_ysyx_self_store_by_h.Base.{
  ℕ, zero, suc, ◌+◌, ◌%◌, ◌<◌, ◌≤◌, ◌≡◌, refl, ap, ◌∙◌, arith, Bool, true, false, not, ◌&&◌, ◌||◌,
  Option, none, some, ltb, ◌==◌, if◌then◌else◌, passes_below, passes_below-lt,
}
use for_ysyx_self_store_by_h.Kernels.ThreadOs.{nr_tasks, find_task}

-- The tasks in a ring.
abbrev pub ring : ℕ → ℕ
ring i = (i + 1) % nr_tasks

-- The task behind `t` among those of a CPU.
abbrev pub turn : ℕ → ℕ → ℕ → ℕ
turn cpu_count cpu t = if ltb (t + cpu_count) nr_tasks then t + cpu_count else cpu

-- The first task of a CPU that runs none, which begins the search behind task 0.
abbrev pub first : ℕ → ℕ → ℕ
first cpu_count cpu = if cpu == 0 then turn cpu_count cpu 0 else cpu

abbrev lands : ℕ → ℕ → ℕ → Option ℕ → Bool
lands cpu_count cpu t none = false
lands cpu_count cpu t (some u) =
    ltb u nr_tasks
    && (u % cpu_count == cpu)
    && (not (t % cpu_count == cpu) || (u == turn cpu_count cpu t))
    && (not (t == 0) || (u == first cpu_count cpu))

abbrev lands_from : ℕ → ℕ → ℕ → Bool
lands_from cpu_count cpu t =
    not (ltb cpu cpu_count) || lands cpu_count cpu t (find_task 5 ring cpu_count cpu t)

every_turn_lands :
    passes_below (λ k. passes_below (λ cpu. passes_below (lands_from k cpu) 5) 5) 6 ≡ true
unfolding passes_below find_task
every_turn_lands = refl

lands-found :
    (k cpu t : ℕ) (o : Option ℕ)
    → lands k cpu t o ≡ true
    → (u : ℕ) × (o ≡ some u)
      × (u < nr_tasks)
      × (u % k ≡ cpu)
      × (t % k ≡ cpu → u ≡ turn k cpu t)
      × (t ≡ 0 → u ≡ first k cpu)
lands-found k cpu t none h = ground (arith, h)
lands-found k cpu t (some u) h =
    (u, refl, ground arith, ground arith, λ own. ground arith, λ start. ground arith)

pub find_task-turn :
    (k cpu t : ℕ)
    → cpu < k
    → k ≤ nr_tasks
    → t < nr_tasks
    → (u : ℕ) × (find_task 5 ring k cpu t ≡ some u)
      × (u < nr_tasks)
      × (u % k ≡ cpu)
      × (t % k ≡ cpu → u ≡ turn k cpu t)
      × (t ≡ 0 → u ≡ first k cpu)
find_task-turn k cpu t below few task =
    let at_k =
      passes_below-lt (λ k. passes_below (λ cpu. passes_below (lands_from k cpu) 5) 5) 6 k
        every_turn_lands (omega arith) in
    let at_cpu =
      passes_below-lt (λ cpu. passes_below (lands_from k cpu) 5) 5 cpu at_k (omega arith) in
    let at_t = passes_below-lt (lands_from k cpu) 5 t at_cpu task in
    lands-found k cpu t (find_task 5 ring k cpu t) (ground arith)

-- Where the tasks are linked to a ring, the loop sees nothing else.
pub find_task-ring :
    (n : ℕ) (next : ℕ → ℕ) (k cpu t : ℕ)
    → ((i : ℕ) → i < nr_tasks → next i ≡ ring i)
    → t < nr_tasks
    → find_task n next k cpu t ≡ find_task n ring k cpu t
unfolding find_task
find_task-ring zero next k cpu t linked task = refl
find_task-ring (suc n) next k cpu t linked task =
    ap step (linked t task)
    ∙ ap (λ rest. onward rest (ring t)) (find_task-ring n next k cpu (ring t) linked (omega arith))
  where
    onward : Option ℕ → ℕ → Option ℕ
    onward rest u = elim (u % k == cpu) [ true ↦ some u | false ↦ rest ]

    step : ℕ → Option ℕ
    step u = onward (find_task n next k cpu u) u
