-- ===== src/Nemu/Cpu/Split.antt =====
-- Executing a + b instructions of cpu-exec.c and executing a, then b.
use for_ysyx_self_store_by_h.Base.{
  ℕ, zero, suc, ◌+◌, ◌%◌, ◌^◌, ◌≡◌, ◌⊎◌, inl, inr, refl, ap, ◌∙◌, arith, Bool, true, false,
  if◌then◌else◌,
}
use for_ysyx_self_store_by_h.Nemu.Result.{Result, ok, failed, fault, ◌>>=◌, Ensures}
use for_ysyx_self_store_by_h.Nemu.State.{Mode, running, stop, end, abort, quit, is_running}
use for_ysyx_self_store_by_h.Nemu.Memory.Mmio.{Config}
use for_ysyx_self_store_by_h.Nemu.Riscv32.{Machine}
use for_ysyx_self_store_by_h.Nemu.Cpu.{
  Run, set_mode, has_ended, exec_once, execute, settle, cpu_exec,
}
use for_ysyx_self_store_by_h.Nemu.Cpu.Laws.{is_running-ended, Ran, execute-Ran}

running_of_is_running : (s : Mode) → is_running s ≡ true → s ≡ running
running_of_is_running running h = refl
running_of_is_running stop h = cc
running_of_is_running end h = cc
running_of_is_running abort h = cc
running_of_is_running quit h = cc

settle_stays : {W : Type 0} (r : Run W) → is_running r.machine.nemu.state ≡ false → settle r ≡ r
settle_stays r h = rw h refl

module _ {W : Type 0} (c : Config) where
  -- The second call goes on if the first left the machine running.
  abbrev then_execute : ℕ → Run W → Result (Run W)
  then_execute b r = if is_running r.machine.nemu.state then execute c b r else ok r

  execute-add :
      (a b : ℕ) (r : Run W)
      → r.machine.nemu.state ≡ running
      → execute c (a + b) r ≡ execute c a r >>= then_execute b
  unfolding execute
  execute-add zero b r h =
      let e : 0 + b ≡ b = omega arith in ap (λ n. execute c n r) e ∙ rw (ap is_running h) refl
  execute-add (suc a) b r h =
      let e : suc a + b ≡ suc (a + b) = omega arith in
      ap (λ n. execute c n r) e ∙ go (λ r'. execute-add a b r') (exec_once c r.machine.pc r.machine)
    where
      next : Machine W → Run W
      next m = record { machine = m; nr_guest_inst = (r.nr_guest_inst + 1) % 2 ^ 64 }

      over : ℕ → Result (Machine W) → Result (Run W)
      over n e = elim e [
        | failed e ↦ failed e
        | fault ↦ fault
        | ok m ↦ elim (is_running m.nemu.state) [
          | true ↦ execute c n (next m)
          | false ↦ ok (next m)
        ]
      ]

      fork :
          ((r' : Run W)
            → r'.machine.nemu.state ≡ running
            → execute c (a + b) r' ≡ execute c a r' >>= then_execute b)
          → (m : Machine W) (t : Bool) → is_running m.nemu.state ≡ t
          → elim t [ true ↦ execute c (a + b) (next m) | false ↦ ok (next m) ]
            ≡ elim t [ true ↦ execute c a (next m) | false ↦ ok (next m) ] >>= then_execute b
      fork ih m true e = ih (next m) (running_of_is_running m.nemu.state e)
      fork ih m false e = rw e refl

      go :
          ((r' : Run W)
            → r'.machine.nemu.state ≡ running
            → execute c (a + b) r' ≡ execute c a r' >>= then_execute b)
          → (e : Result (Machine W)) → over (a + b) e ≡ over a e >>= then_execute b
      go ih (failed e) = refl
      go ih fault = refl
      go ih (ok m) = fork ih m (is_running m.nemu.state) refl

  -- From the state the loop starts with, one call after the other.
  resume :
      (b : ℕ) (r : Run W)
      → (r.machine.nemu.state ≡ running) ⊎ (has_ended r.machine.nemu.state ≡ true)
      → (then_execute b r >>= λ r'. ok (settle r')) ≡ cpu_exec c b (settle r)
  unfolding cpu_exec
  resume b r (inl h) = rw (ap is_running h) (
      ap (λ s. execute c b (record r { machine = set_mode r.machine s }) >>= λ r'. ok (settle r'))
        h)
  resume b r (inr h) =
      rw (is_running-ended r.machine.nemu.state h)
        (rw h (ap ok (settle_stays r (is_running-ended r.machine.nemu.state h))))

  -- cpu_exec (a + b) does what cpu_exec (a) followed by cpu_exec (b) does, on every machine and
  -- with every outcome.
  pub cpu_exec-add : (a b : ℕ) (r : Run W) → cpu_exec c (a + b) r ≡ cpu_exec c a r >>= cpu_exec c b
  unfolding cpu_exec
  cpu_exec-add a b r = go (has_ended r.machine.nemu.state) refl
    where
      start : Run W
      start = record r { machine = set_mode r.machine running }

      join :
          (e : Result (Run W))
          → Ensures (Ran c a start) e
          → ((e >>= then_execute b) >>= λ r'. ok (settle r'))
            ≡ (e >>= λ r'. ok (settle r')) >>= cpu_exec c b
      join (ok r') q = resume b r' (elim q.holds.how_ended [ inl (h, e) ↦ inl h | inr h ↦ inr h ])
      join (failed e) q = refl
      join fault q = refl

      go :
          (t : Bool)
          → has_ended r.machine.nemu.state ≡ t
          → (if t then ok r else (execute c (a + b) start >>= λ r'. ok (settle r')))
            ≡ (if t then ok r else (execute c a start >>= λ r'. ok (settle r'))) >>= cpu_exec c b
      go true e = rw e refl
      go false e =
          ap (λ x. x >>= λ r'. ok (settle r')) (execute-add a b start refl)
          ∙ join (execute c a start) (execute-Ran c a start refl)
