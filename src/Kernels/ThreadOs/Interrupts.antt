-- ===== src/Kernels/ThreadOs/Interrupts.antt =====
-- One call of on_interrupt: ysyx-workbench/am-kernels/kernels/thread-os/thread-os.c.
use for_ysyx_self_store_by_h.Base.{
  ℕ, ◌%◌, ◌<◌, ◌≤◌, ◌≡◌, ◌≢◌, inl, inr, refl, ap, sym, subst, ◌∙◌, arith, true, none, some, ltb,
  ◌==◌, Bool-cases, Option-cases, eq_of_some,
}
use for_ysyx_self_store_by_h.Kernels.ThreadOs.{Os, nr_tasks, max_cpu, returned, save, on_interrupt}
use for_ysyx_self_store_by_h.Kernels.ThreadOs.Turns.{turn, first}
use for_ysyx_self_store_by_h.Kernels.ThreadOs.Schedules.{IsAssigned, switch-Resumed}

-- The CPU goes on with the task `u` of its own, where that was interrupted; the interrupted task has
-- its context saved, and everything else is as before.
pub record Switched {C : Type 0} (k cpu : ℕ) (ctx : C) (os os' : Os C) (resumed : C) (u : ℕ)
    : Type 0 where
  pub runs : os'.currents cpu ≡ some u
  pub others : (other : ℕ) → other ≢ cpu → os'.currents other ≡ os.currents other
  pub saved : (t : ℕ) → os.currents cpu ≡ some t → (os'.tasks t).context ≡ ctx
  pub kept : (i : ℕ) → os.currents cpu ≢ some i → (os'.tasks i).context ≡ (os.tasks i).context
  pub same_name : (i : ℕ) → (os'.tasks i).name ≡ (os.tasks i).name
  pub same_next : (i : ℕ) → (os'.tasks i).next ≡ (os.tasks i).next
  pub context : resumed ≡ (os'.tasks u).context
  pub small : u < nr_tasks
  pub own : u % k ≡ cpu
  pub turns : (t : ℕ) → os.currents cpu ≡ some t → u ≡ turn k cpu t
  pub begins : os.currents cpu ≡ none → u ≡ first k cpu
  pub assigned : IsAssigned k os'

save-next :
    {C : Type 0} (rounds k t : ℕ) (ctx : C) (os : Os C) (i : ℕ)
    → ((save rounds k t ctx os).tasks i).next ≡ (os.tasks i).next
save-next rounds k t ctx os i = elim (Bool-cases (t == i)) [
  | inl same ↦ ground (arith, same)
  | inr differ ↦ ground (arith, differ)
]

save-name :
    {C : Type 0} (rounds k t : ℕ) (ctx : C) (os : Os C) (i : ℕ)
    → ((save rounds k t ctx os).tasks i).name ≡ (os.tasks i).name
save-name rounds k t ctx os i = elim (Bool-cases (t == i)) [
  | inl same ↦ ground (arith, same)
  | inr differ ↦ ground (arith, differ)
]

save-IsAssigned :
    {C : Type 0} (k t : ℕ) (ctx : C) (os : Os C)
    → IsAssigned k os
    → IsAssigned k (save 5 k t ctx os)
save-IsAssigned k t ctx os h = record {
  linked = λ i small. save-next 5 k t ctx os i ∙ h.linked i small;
  own = h.own;
}

save-at : {C : Type 0} (k t : ℕ) (ctx : C) (os : Os C) → ((save 5 k t ctx os).tasks t).context ≡ ctx
save-at k t ctx os = ground arith

save-other :
    {C : Type 0} (k t : ℕ) (ctx : C) (os : Os C) (i : ℕ)
    → i ≢ t
    → ((save 5 k t ctx os).tasks i).context ≡ (os.tasks i).context
save-other k t ctx os i differ = ground (arith, differ)

-- On a CPU with a number below cpu_count, which is at most five, the tasks in a ring and no CPU
-- running but its own: on_interrupt returns the context of a task of this CPU. That is the next one in
-- turn behind the task interrupted, which has its context saved; on a CPU that has run none yet, it is
-- the first one of this CPU behind task 0. The context of every other task, the names and links of all
-- of them, and what the other CPUs run, are as before.
pub on_interrupt-Switched :
    {C : Type 0} (k cpu : ℕ) (ctx : C) (os : Os C)
    → cpu < k
    → k ≤ nr_tasks
    → IsAssigned k os
    → (os' : Os C) × (resumed : C) × (u : ℕ) × (on_interrupt 5 k cpu ctx os ≡ returned os' resumed)
      × Switched k cpu ctx os os' resumed u
unfolding on_interrupt
on_interrupt-Switched k cpu ctx os below few h =
    let in_range : ltb cpu max_cpu ≡ true = ground arith in
    elim (Option-cases (os.currents cpu)) [
      | inl idle ↦
          let (os', resumed, u, done, r, small, own, turns, begins) =
            switch-Resumed k cpu 0 os below few (omega arith) h in
          (
            os',
            resumed,
            u,
            rw (in_range, on_interrupt) (rw idle done),
            record {
              runs = r.runs;
              others = r.others;
              saved = λ t e. ground (arith, idle, e);
              kept = λ i differ. ap (λ tasks. (tasks i).context) r.same_tasks;
              context = r.context ∙ sym (ap (λ tasks. (tasks u).context) r.same_tasks);
              small = small;
              own = own;
              same_name = λ i. ap (λ tasks. (tasks i).name) r.same_tasks;
              same_next = λ i. ap (λ tasks. (tasks i).next) r.same_tasks;
              turns = λ t e. ground (arith, idle, e);
              begins = λ e. begins refl;
              assigned = r.assigned;
            },
          )
      | inr (t, busy) ↦
          let (task, mine) = h.own cpu t busy in
          let (os', resumed, u, done, r, small, own, turns, begins) =
            switch-Resumed k cpu t (save 5 k t ctx os) below few task
              (save-IsAssigned k t ctx os h) in
          (
            os',
            resumed,
            u,
            rw (in_range, on_interrupt) (rw busy done),
            record {
              runs = r.runs;
              others = r.others;
              saved = λ t' e.
                  ap (λ tasks. (tasks t').context) r.same_tasks
                  ∙ subst (λ x. ((save 5 k t ctx os).tasks x).context ≡ ctx)
                      (eq_of_some (sym busy ∙ e)) (save-at k t ctx os);
              kept = λ i differ.
                  ap (λ tasks. (tasks i).context) r.same_tasks
                  ∙ save-other k t ctx os i (λ same. differ (busy ∙ ap some (sym same)));
              context = r.context ∙ sym (ap (λ tasks. (tasks u).context) r.same_tasks);
              small = small;
              own = own;
              same_name = λ i. ap (λ tasks. (tasks i).name) r.same_tasks ∙ save-name 5 k t ctx os i;
              same_next = λ i. ap (λ tasks. (tasks i).next) r.same_tasks ∙ save-next 5 k t ctx os i;
              begins = λ e. ground (arith, busy, e);
              turns = λ t' e. turns mine ∙ ap (turn k cpu) (eq_of_some (sym busy ∙ e));
              assigned = r.assigned;
            },
          )
    ]
