-- ===== src/Nemu/Cpu/Laws.antt =====
-- The loop of cpu-exec.c: how far it goes, how it stops, and that it can be cut in two.
use for_ysyx_self_store_by_h.Base.{
  ℕ, zero, suc, ◌+◌, ◌*◌, ◌%◌, ◌^◌, ◌≤◌, ◌≡◌, ◌⊎◌, inl, inr, refl, ap, ◌∙◌, arith, true, false, u32,
}
use for_ysyx_self_store_by_h.Nemu.Result.{
  Result, ok, failed, fault, Ensures, Ensures-ok, Ensures-chain, Ensures-mono,
}
use for_ysyx_self_store_by_h.Nemu.State.{
  Mode, running, stop, end, abort, quit, NemuState, is_running,
}
use for_ysyx_self_store_by_h.Nemu.Memory.Mmio.{Config}
use for_ysyx_self_store_by_h.Nemu.Riscv32.{Machine}
use for_ysyx_self_store_by_h.Nemu.Riscv32.Effects.{RunsOrEnds, Advances, exec_once-Advances}
use for_ysyx_self_store_by_h.Nemu.Cpu.{
  Run, set_mode, has_ended, exec_once, execute, settle, cpu_exec,
}

-- An instruction of a running machine leaves it running or ended.
pub goes_on_or_has_ended :
    (n n' : NemuState)
    → n.state ≡ running
    → RunsOrEnds n n'
    → (n'.state ≡ running) ⊎ (has_ended n'.state ≡ true)
goes_on_or_has_ended n n' h (inl e) = inl (ap (λ (s : NemuState). s.state) e ∙ h)
goes_on_or_has_ended n n' h (inr (inl e)) = inr (ap has_ended e)
goes_on_or_has_ended n n' h (inr (inr e)) = inr (ap has_ended e)

pub is_running-ended : (s : Mode) → has_ended s ≡ true → is_running s ≡ false
is_running-ended running h = cc
is_running-ended stop h = refl
is_running-ended end h = refl
is_running-ended abort h = refl
is_running-ended quit h = refl

module _ {W : Type 0} (c : Config) where
  abbrev IsRunning : Run W → Type 0
  IsRunning r = r.machine.nemu.state ≡ running

  -- What at most `n` instructions from `r` have done when they are over: some `k` of them were
  -- executed, PC and the counter have moved by `k`, and the machine has ended unless `k` is `n`.
  pub record Ran (n : ℕ) (r r' : Run W) : Type 0 where
    pub count : ℕ
    pub count_bound : count ≤ n
    pub pc_moved : u32 r'.machine.pc ≡ u32 (r.machine.pc + 4 * count)
    pub counted : r'.nr_guest_inst % 2 ^ 64 ≡ (r.nr_guest_inst + count) % 2 ^ 64
    pub how_ended : (IsRunning r' × (count ≡ n)) ⊎ (has_ended r'.machine.nemu.state ≡ true)

  pub execute-Ran : (n : ℕ) (r : Run W) → IsRunning r → Ensures (Ran n r) (execute c n r)
  unfolding execute
  execute-Ran zero r h = Ensures-ok r (record {
    count = 0;
    count_bound = ground arith;
    pc_moved = omega arith;
    counted = omega arith;
    how_ended = inl (h, refl);
  })
  execute-Ran (suc n) r h =
      go (λ r'. execute-Ran n r') (exec_once c r.machine.pc r.machine)
        (exec_once-Advances c r.machine)
    where
      -- The run after an instruction that left the machine `m`.
      next : Machine W → Run W
      next m = record { machine = m; nr_guest_inst = (r.nr_guest_inst + 1) % 2 ^ 64 }

      more :
          (m : Machine W)
          → Advances r.machine m
          → {r' : Run W} → Ran n (next m) r'
          → Ran (suc n) r r'
      more m a q = record {
        count = suc q.count;
        count_bound = omega (arith, q.count_bound);
        pc_moved = omega (arith, a.pc_next, q.pc_moved);
        counted = omega (arith, q.counted);
        how_ended = elim q.how_ended [ inl (h, e) ↦ inl (h, ap suc e) | inr h ↦ inr h ];
      }

      stopped :
          (m : Machine W)
          → Advances r.machine m
          → has_ended m.nemu.state ≡ true
          → Ran (suc n) r (next m)
      stopped m a e = record {
        count = 1;
        count_bound = ground arith;
        pc_moved = omega (arith, a.pc_next);
        counted = omega arith;
        how_ended = inr e;
      }

      go :
          ((r' : Run W) → IsRunning r' → Ensures (Ran n r') (execute c n r'))
          → (e : Result (Machine W)) → Ensures (Advances r.machine) e
          → Ensures (Ran (suc n) r) (elim e [
            | failed e ↦ failed e
            | fault ↦ fault
            | ok m ↦ elim (is_running m.nemu.state) [
              | true ↦ execute c n (next m)
              | false ↦ ok (next m)
            ]
          ])
      go ih (failed e) a = record { holds = tt }
      go ih fault a = record { holds = tt }
      go ih (ok m) a = elim (goes_on_or_has_ended r.machine.nemu m.nemu h a.holds.state_kept) [
        | inl e ↦ rw (ap is_running e) (Ensures-mono (ih (next m) e) (λ r'. more m a.holds))
        | inr e ↦ rw (is_running-ended m.nemu.state e) (Ensures-ok (next m) (stopped m a.holds e))
      ]

  -- cpu_exec of `n` instructions, from a machine that has not ended.
  pub record Executed (n : ℕ) (r r' : Run W) : Type 0 where
    pub count : ℕ
    pub count_bound : count ≤ n
    pub pc_moved : u32 r'.machine.pc ≡ u32 (r.machine.pc + 4 * count)
    pub counted : r'.nr_guest_inst % 2 ^ 64 ≡ (r.nr_guest_inst + count) % 2 ^ 64
    pub how_ended :
        ((r'.machine.nemu.state ≡ stop) × (count ≡ n)) ⊎ (has_ended r'.machine.nemu.state ≡ true)

  settle-Executed : (n : ℕ) (r r' : Run W) → Ran n r r' → Executed n r (settle r')
  settle-Executed n r r' q = elim q.how_ended [
    | inl (h, e) ↦ rw (ap is_running h) (record {
      count = q.count;
      count_bound = q.count_bound;
      pc_moved = q.pc_moved;
      counted = q.counted;
      how_ended = inl (refl, e);
    })
    | inr h ↦ rw (is_running-ended r'.machine.nemu.state h) (record {
      count = q.count;
      count_bound = q.count_bound;
      pc_moved = q.pc_moved;
      counted = q.counted;
      how_ended = inr h;
    })
  ]

  -- cpu_exec (n) of a machine that has not ended, where it returns, has executed some k ≤ n
  -- instructions: PC has moved by k words (modulo 2^32), the counter by k (modulo 2^64), and the
  -- machine has stopped with k = n, or has ended, aborted or quit. It is never left running.
  pub cpu_exec-Executed :
      (n : ℕ) (r : Run W)
      → has_ended r.machine.nemu.state ≡ false
      → Ensures (Executed n r) (cpu_exec c n r)
  unfolding cpu_exec
  cpu_exec-Executed n r h = rw h (
      Ensures-chain (execute c n (record r { machine = set_mode r.machine running }))
        (λ r'. ok (settle r'))
        (execute-Ran n (record r { machine = set_mode r.machine running }) refl)
        (λ r' q. Ensures-ok _ (
          settle-Executed n r r' (record {
            count = q.count;
            count_bound = q.count_bound;
            pc_moved = q.pc_moved;
            counted = q.counted;
            how_ended = q.how_ended;
          }))))
