-- ===== src/Kernels/ThreadOs/Lock/Excludes.antt =====
-- The lock of ysyx-workbench/am-kernels/kernels/thread-os/thread-os.c excludes.
use for_ysyx_self_store_by_h.Base.{
  ℕ, ◌≡◌, ◌≢◌, ◌⊎◌, inl, inr, refl, ap, sym, subst, ◌∙◌, arith, Bool, ◌==◌, if◌then◌else◌, update,
  Bool-cases,
}
use for_ysyx_self_store_by_h.Kernels.ThreadOs.Lock.{
  Phase, locking, printing, delaying, Locks, lock, unlock, func, initial, Reachable, start, step,
}

-- The variable is 1 where one task prints, and 0 where none does.
pub record IsGuarded (s : Locks) : Type 0 where
  pub free : s.locked ≡ 0 → (i : ℕ) → s.phase i ≢ printing
  pub alone : (i j : ℕ) → s.phase i ≡ printing → s.phase j ≡ printing → i ≡ j
  pub held : s.locked ≢ 0 → (i : ℕ) × (s.phase i ≡ printing)

-- Where a task is after an assignment to the phase of `i`.
pub moved :
    (phase : ℕ → Phase) (i j : ℕ) (p : Phase)
    → ((i ≡ j) × (update phase i p j ≡ p)) ⊎ ((i ≢ j) × (update phase i p j ≡ phase j))
moved phase i j p = elim (Bool-cases (i == j)) [
  | inl same ↦ inl (ground (arith, same), rw same refl)
  | inr differ ↦ inr (ground (arith, differ), rw differ refl)
]

printing-update :
    (phase : ℕ → Phase) (i j : ℕ) (p : Phase)
    → p ≢ printing
    → update phase i p j ≡ printing
    → (i ≢ j) × (phase j ≡ printing)
printing-update phase i j p other e = elim (moved phase i j p) [
  | inl (same, at) ↦ absurd (other (sym at ∙ e))
  | inr (differ, at) ↦ (differ, sym at ∙ e)
]

printing-take :
    (phase : ℕ → Phase) (i j : ℕ)
    → ((j : ℕ) → phase j ≢ printing)
    → update phase i printing j ≡ printing
    → i ≡ j
printing-take phase i j none_prints e = elim (moved phase i j printing) [
  | inl (same, at) ↦ same
  | inr (differ, at) ↦ absurd (none_prints j (sym at ∙ e))
]

pub locking_is_not_printing : locking ≢ printing
locking_is_not_printing = ground arith

-- A task that does not print goes to another phase in which it does not.
waits-IsGuarded :
    (i v : ℕ) (p : Phase) (s : Locks)
    → IsGuarded s
    → p ≢ printing
    → s.phase i ≢ printing
    → (v ≡ 0 → s.locked ≡ 0)
    → (v ≢ 0 → s.locked ≢ 0)
    → IsGuarded (record { locked = v; phase = update s.phase i p })
waits-IsGuarded i v p s g to from free held = record {
  free = λ e j prints.
      let (_, before) = printing-update s.phase i j p to prints in g.free (free e) j before;
  alone = λ a b at_a at_b.
      let (_, before_a) = printing-update s.phase i a p to at_a in
      let (_, before_b) = printing-update s.phase i b p to at_b in g.alone a b before_a before_b;
  held = λ taken.
      let (j, prints) = g.held (held taken) in
      elim (moved s.phase i j p) [
        | inl (same, at) ↦ absurd (from (ap s.phase same ∙ prints))
        | inr (differ, at) ↦ (j, at ∙ prints)
      ];
}

taken-IsGuarded :
    (i : ℕ) (s : Locks)
    → IsGuarded s
    → s.locked ≡ 0
    → IsGuarded (record { locked = 1; phase = update s.phase i printing })
taken-IsGuarded i s g is_free = record {
  free = λ e j prints. absurd (omega (arith, e));
  alone = λ a b at_a at_b.
      sym (printing-take s.phase i a (g.free is_free) at_a)
      ∙ printing-take s.phase i b (g.free is_free) at_b;
  held = λ taken. (i, ground arith);
}

released-IsGuarded :
    (i : ℕ) (s : Locks)
    → IsGuarded s
    → s.phase i ≡ printing
    → IsGuarded (record { locked = 0; phase = update s.phase i delaying })
released-IsGuarded i s g prints_i =
    let only : (j : ℕ) → update s.phase i delaying j ≢ printing = λ j prints.
      let (differ, before) = printing-update s.phase i j delaying (ground arith) prints in
      differ (g.alone i j prints_i before) in
    record {
      free = λ e. only;
      alone = λ a b at_a at_b. absurd (only a at_a);
      held = λ taken. absurd (taken refl);
    }

pub func-IsGuarded : (i : ℕ) (s : Locks) → IsGuarded s → IsGuarded (func i s)
unfolding func
func-IsGuarded i s g = go (s.phase i) refl
  where
    after : Phase → Locks
    after p = elim p [
      | locking ↦ lock i s
      | printing ↦ unlock i s
      | delaying ↦ record s { phase = update s.phase i locking }
    ]

    tried : Bool → Locks
    tried b = record { locked = 1; phase = update s.phase i (if b then printing else locking) }

    go : (p : Phase) → s.phase i ≡ p → IsGuarded (after p)
    go printing e = released-IsGuarded i s g e
    go delaying e =
        waits-IsGuarded i (s.locked) locking s g locking_is_not_printing
          (λ prints. absurd (ground (arith, e, prints))) (λ same. same) (λ same. same)
    go locking e = elim (Bool-cases (s.locked == 0)) [
      | inl is_free ↦
          subst (λ b. IsGuarded (tried b)) (sym is_free)
            (taken-IsGuarded i s g (ground (arith, is_free)))
      | inr taken ↦
          subst (λ b. IsGuarded (tried b)) (sym taken)
            (waits-IsGuarded i 1 locking s g locking_is_not_printing
              (λ prints. locking_is_not_printing (sym e ∙ prints))
              (λ one. absurd (omega (arith, one))) (λ one zero. ground (arith, taken, zero)))
    ]

initial-IsGuarded : IsGuarded initial
initial-IsGuarded = record {
  free = λ e i. locking_is_not_printing;
  alone = λ a b at_a at_b. absurd (locking_is_not_printing at_a);
  held = λ taken. absurd (taken refl);
}

-- In whatever order the tasks take their steps from the start: no two of them print at the same time,
-- none prints while the variable is 0, and one does while it is not.
pub Reachable-IsGuarded : {s : Locks} → Reachable s → IsGuarded s
Reachable-IsGuarded start = initial-IsGuarded
Reachable-IsGuarded (step {s} i r) = func-IsGuarded i s (Reachable-IsGuarded r)
