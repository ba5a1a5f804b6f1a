-- ===== src/Kernels/ThreadOs/Lock.antt =====
-- The tasks of ysyx-workbench/am-kernels/kernels/thread-os/thread-os.c, which print under a spin lock,
-- in any order of their steps. atomic_xchg is that of abstract-machine/am/src/native/mpe.c.
pub mod Excludes
pub mod Progress
use for_ysyx_self_store_by_h.Base.{
  ℕ, zero, suc, ◌+◌, ◌<◌, ◌≤◌, ◌≡◌, ◌≢◌, ◌⊎◌, inl, inr, refl, ap, sym, subst, ◌∙◌, arith, Bool,
  true, false, List, [], ◌∷◌, ◌==◌, if◌then◌else◌, update, Bool-cases,
}

-- Where a task is in func: in the loop of lock, behind it, or behind unlock.
pub data Phase : Type 0 where
  locking : Phase
  printing : Phase
  delaying : Phase

-- The variable locked, and the phase of every task.
pub record Locks : Type 0 where
  pub locked : ℕ
  pub phase : ℕ → Phase

-- The new value of the variable, and the old one.
abbrev pub atomic_xchg : ℕ → ℕ → ℕ × ℕ
atomic_xchg value newval = (newval, value)

-- One round of the loop of lock.
abbrev pub lock : ℕ → Locks → Locks
lock i s =
    let (value, old) = atomic_xchg (s.locked) 1 in
    record { locked = value; phase = update s.phase i (if old == 0 then printing else locking) }

abbrev pub unlock : ℕ → Locks → Locks
unlock i s =
    let (value, old) = atomic_xchg (s.locked) 0 in
    record { locked = value; phase = update s.phase i delaying }

-- A step of the task `i` in func.
unfoldable pub func : ℕ → Locks → Locks
func i s = elim (s.phase i) [
  | locking ↦ lock i s
  | printing ↦ unlock i s
  | delaying ↦ record s { phase = update s.phase i locking }
]

-- The steps of the tasks, in the order in which they come.
unfoldable pub interleaved : List ℕ → Locks → Locks
interleaved [] s = s
interleaved (i ∷ is) s = interleaved is (func i s)

abbrev pub initial : Locks
initial = record { locked = 0; phase = λ i. locking }

-- What some interleaving of the tasks leads to.
pub data Reachable : Locks → Type 0 where
  start : Reachable initial
  step : {s : Locks} → (i : ℕ) → Reachable s → Reachable (func i s)
