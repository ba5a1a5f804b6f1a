-- ===== src/Nemu/Riscv32/Effects.antt =====
-- What one instruction of the riscv32 decoder does to the emulator's own state, whatever the word:
-- it runs on, or it has ended or aborted.
use for_ysyx_self_store_by_h.Base.{◌∙◌, subst, ℕ, ◌+◌, ◌-◌, ◌^◌, ◌≡◌, ◌⊎◌, inl, inr, refl, u32}
use for_ysyx_self_store_by_h.Nemu.Result.{
  ok, ◌>>=◌, Ensures, Ensures-ok, Ensures-if, Ensures->>=, Ensures-chain, Ensures-mono,
}
use for_ysyx_self_store_by_h.Nemu.State.{end, abort, NemuState}
use for_ysyx_self_store_by_h.Nemu.Memory.Mmio.{Config}
use for_ysyx_self_store_by_h.Nemu.Memory.Paddr.{vaddr_ifetch, vaddr_read, vaddr_write}
use for_ysyx_self_store_by_h.Nemu.Riscv32.{
  Machine, Decode, instpat, auipc_pattern, lbu_pattern, sb_pattern, ebreak_pattern, inv_pattern,
  set_gpr, set_nemu_state, inst_fetch, invalid_inst, exec_auipc, exec_lbu, exec_sb, exec_pattern,
  decode_exec, isa_exec_once, decode_operand, type_i, type_s,
}
use for_ysyx_self_store_by_h.Nemu.Cpu.{exec_once}

-- The emulator's state after an instruction that started in the state `n`.
abbrev pub RunsOrEnds : NemuState → NemuState → Type 0
RunsOrEnds n n' = (n' ≡ n) ⊎ ((n'.state ≡ end) ⊎ (n'.state ≡ abort))

-- What one instruction leaves: the emulator's state as above, register 0 at 0, and PC at the next
-- word.
pub record Advances {W : Type 0} (m m' : Machine W) : Type 0 where
  pub state_kept : RunsOrEnds m.nemu m'.nemu
  pub zero_kept : m'.gpr 0 ≡ 0
  pub pc_next : m'.pc ≡ u32 (m.pc + 4)

-- A fetch changes the memory side alone.
pub record Fetches {W : Type 0} (pc len : ℕ) (m : Machine W) (r : ℕ × ℕ × Machine W) : Type 0 where
  pub pc_behind : r.1 ≡ u32 (pc + len)
  pub gpr_kept : r.2.gpr ≡ m.gpr
  pub pc_kept : r.2.pc ≡ m.pc
  pub nemu_kept : r.2.nemu ≡ m.nemu

module _ {W : Type 0} (c : Config) where
  pub inst_fetch-Fetches :
      (pc len : ℕ) (m : Machine W) → Ensures (Fetches pc len m) (inst_fetch c pc len m)
  inst_fetch-Fetches pc len m =
      Ensures->>= (vaddr_ifetch c pc len m.bus)
        (λ (w, b). ok (w, u32 (pc + len), record m { bus = b }))
        (λ b e.
          Ensures-ok _
            (record { pc_behind = refl; gpr_kept = refl; pc_kept = refl; nemu_kept = refl }))

module _ {W : Type 0} (c : Config) (s : Decode) (m : Machine W) where
  -- The bodies keep PC, and set the emulator's state as the instruction does.
  record Body (m' : Machine W) : Type 0 where
    body_nemu : RunsOrEnds m.nemu m'.nemu
    body_pc : m'.pc ≡ m.pc

  exec_lbu-Body : Ensures Body (exec_lbu c s m)
  unfolding exec_lbu
  exec_lbu-Body =
      let o = decode_operand m.gpr s.inst type_i in
      Ensures->>= (vaddr_read c (u32 (o.src1 + o.imm)) 1 m.bus)
        (λ (v, b). ok (set_gpr (record m { bus = b }) o.rd v))
        (λ b e. Ensures-ok _ (record { body_nemu = inl refl; body_pc = refl }))

  exec_sb-Body : Ensures Body (exec_sb c s m)
  unfolding exec_sb
  exec_sb-Body =
      let o = decode_operand m.gpr s.inst type_s in
      Ensures->>= (vaddr_write c (u32 (o.src1 + o.imm)) 1 o.src2 m.bus)
        (λ b. ok (record m { bus = b }))
        (λ b e. Ensures-ok _ (record { body_nemu = inl refl; body_pc = refl }))

  invalid_inst-Body : Ensures Body (invalid_inst c s.pc m)
  unfolding invalid_inst set_nemu_state
  invalid_inst-Body =
      Ensures-chain (inst_fetch c s.pc 4 m)
        (λ (w, pc, m1).
          inst_fetch c pc 4 m1 >>= λ (w', pc', m2). ok (set_nemu_state abort s.pc (2 ^ 32 - 1) m2))
        (inst_fetch-Fetches c s.pc 4 m)
        (λ (w, pc, m1) q.
          Ensures-chain (inst_fetch c pc 4 m1)
            (λ (w', pc', m2). ok (set_nemu_state abort s.pc (2 ^ 32 - 1) m2))
            (inst_fetch-Fetches c pc 4 m1)
            (λ (w', pc', m2) q'.
              Ensures-ok _
                (record { body_nemu = inr (inr refl); body_pc = q'.pc_kept ∙ q.pc_kept })))

  exec_pattern-Body : Ensures Body (exec_pattern c s m)
  unfolding exec_pattern exec_auipc set_nemu_state
  exec_pattern-Body =
      Ensures-if (instpat auipc_pattern s.inst) _ _
        (Ensures-ok _ (record { body_nemu = inl refl; body_pc = refl }))
        (Ensures-if (instpat lbu_pattern s.inst) _ _ exec_lbu-Body (
          Ensures-if (instpat sb_pattern s.inst) _ _ exec_sb-Body (
            Ensures-if (instpat ebreak_pattern s.inst) _ _
              (Ensures-ok _ (record { body_nemu = inr (inl refl); body_pc = refl }))
              (Ensures-if (instpat inv_pattern s.inst) _ _ invalid_inst-Body
                (Ensures-ok m (record { body_nemu = inl refl; body_pc = refl }))))))

  -- The next word follows, and register 0 is cleared.
  pub decode_exec-Advances :
      Ensures
        (λ (s', m'). (s'.dnpc ≡ s.snpc) × RunsOrEnds m.nemu m'.nemu × (m'.gpr 0 ≡ 0))
        (decode_exec c s m)
  unfolding decode_exec
  decode_exec-Advances =
      Ensures-chain (exec_pattern c s m) (λ m'. ok (record s { dnpc = s.snpc }, set_gpr m' 0 0))
        exec_pattern-Body (λ m' q. Ensures-ok _ (refl, q.body_nemu, refl))

module _ {W : Type 0} (c : Config) (m : Machine W) where
  -- What isa_exec_once leaves.
  abbrev Steps : Decode × Machine W → Type 0
  Steps (s', m') = (s'.dnpc ≡ u32 (m.pc + 4)) × RunsOrEnds m.nemu m'.nemu × (m'.gpr 0 ≡ 0)

  isa_exec_once-Steps :
      Ensures Steps (isa_exec_once c (record { pc = m.pc; snpc = m.pc; dnpc = 0; inst = 0 }) m)
  unfolding isa_exec_once
  isa_exec_once-Steps =
      Ensures-chain (inst_fetch c m.pc 4 m)
        (λ (w, pc, m1). decode_exec c (record { pc = m.pc; snpc = pc; dnpc = 0; inst = w }) m1)
        (inst_fetch-Fetches c m.pc 4 m)
        (λ (w, pc, m1) q.
          Ensures-mono
            (decode_exec-Advances c (record { pc = m.pc; snpc = pc; dnpc = 0; inst = w }) m1)
            (λ (s', m') (hd, hn, h0).
              (hd ∙ q.pc_behind, subst (λ n. RunsOrEnds n m'.nemu) q.nemu_kept hn, h0)))

  -- An instruction that executes moves PC to the next word, leaves 0 in register 0, and leaves the
  -- emulator as it was, ended or aborted.
  pub exec_once-Advances : Ensures (Advances m) (exec_once c m.pc m)
  unfolding exec_once
  exec_once-Advances =
      Ensures-chain (isa_exec_once c (record { pc = m.pc; snpc = m.pc; dnpc = 0; inst = 0 }) m)
        (λ (s', m'). ok (record m' { pc = s'.dnpc })) isa_exec_once-Steps
        (λ (s', m') (hd, hn, h0).
          Ensures-ok _ (record { state_kept = hn; zero_kept = h0; pc_next = hd }))
