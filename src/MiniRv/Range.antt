-- ===== src/MiniRv/Range.antt =====
-- The state stays a state of the C program: 32-bit registers and PC, 8-bit memory cells; and ROM
-- is never written.
use for_ysyx_self_store_by_h.Base.{
  ℕ, ◌==◌, load8, u32, Bool, true, false, store8-IsBytes, store32-IsBytes, ◌+◌, ◌*◌, ◌/◌, ◌^◌, ◌<◌,
  ◌≡◌, refl, Option, none, some, arith, if◌then◌else◌, bits, IsBytes, load32, load8-lt, load32-lt,
}
use for_ysyx_self_store_by_h.MiniRv.Machine.{
  mem_size, State, Message, Outcome, running, exited, fault,
}
use for_ysyx_self_store_by_h.MiniRv.Exec.{
  set_reg, fetched, put_loaded, put_stored, execute, exec_op, exec_op_imm, exec_lui, exec_jalr,
  exec_load, exec_store, exec_system, on_fetch, inst_cycle, sign_extend,
}

pub record IsInRange (s : State) : Type 0 where
  pub regs : (r : ℕ) → s.regs r < 2 ^ 32
  pub memory : IsBytes s.memory
  pub rom : IsBytes s.rom
  pub pc : s.pc < 2 ^ 32

-- The states that an outcome goes on with are in range and have the given ROM.
abbrev pub Keeps : (ℕ → ℕ) → Outcome → Type 0
Keeps rom (running s) = IsInRange s × (s.rom ≡ rom)
Keeps rom (exited code m) = Unit
Keeps rom fault = Unit

-- The same as a record, which shows the outcome that it is about.
record Kept (rom : ℕ → ℕ) (o : Outcome) : Type 0 where
  kept : Keeps rom o

if-Kept :
    {rom : ℕ → ℕ} (b : Bool) (x y : Outcome)
    → Kept rom x
    → Kept rom y
    → Kept rom (if b then x else y)
if-Kept true x y p q = p
if-Kept false x y p q = q

module _ (s : State) (ok : IsInRange s) where
  set_reg-Kept : (rd v : ℕ) → v < 2 ^ 32 → Kept s.rom (running (set_reg s rd v))
  set_reg-Kept rd v h = record {
    kept = (
      record {
        regs = λ r. ground (arith, ok.regs r);
        memory = ok.memory;
        rom = ok.rom;
        pc = ok.pc;
      },
      refl,
    );
  }

  put_loaded-Kept :
      (rd : ℕ) (o : Option ℕ) → ((v : ℕ) → o ≡ some v → v < 2 ^ 32) → Kept s.rom (put_loaded s rd o)
  put_loaded-Kept rd none h = record { kept = tt }
  put_loaded-Kept rd (some v) h = set_reg-Kept rd v (h v refl)

  put_stored-Kept :
      (o : Option (ℕ → ℕ)) → ((m : ℕ → ℕ) → o ≡ some m → IsBytes m) → Kept s.rom (put_stored s o)
  put_stored-Kept none h = record { kept = tt }
  put_stored-Kept (some m) h = record {
    kept = (record { regs = ok.regs; memory = h m refl; rom = ok.rom; pc = ok.pc }, refl);
  }

  stays : Kept s.rom (running s)
  stays = record { kept = (ok, refl) }

  stops : (code : ℕ) (m : Message) → Kept s.rom (exited code m)
  stops code m = record { kept = tt }

  sum-lt : (a b : ℕ) → u32 (a + b) < 2 ^ 32
  sum-lt a b = omega arith

  exec_op-Kept : (inst : ℕ) → Kept s.rom (exec_op s inst)
  unfolding exec_op
  exec_op-Kept inst = if-Kept _ _ _ (set_reg-Kept _ _ (sum-lt _ _)) stays

  exec_op_imm-Kept : (inst : ℕ) → Kept s.rom (exec_op_imm s inst)
  unfolding exec_op_imm
  exec_op_imm-Kept inst = if-Kept _ _ _ (set_reg-Kept _ _ (sum-lt _ _)) stays

  exec_lui-Kept : (inst : ℕ) → inst < 2 ^ 32 → Kept s.rom (exec_lui s inst)
  unfolding exec_lui
  exec_lui-Kept inst h = set_reg-Kept _ _ (omega arith)

  exec_load-Kept : (inst : ℕ) → Kept s.rom (exec_load s inst)
  unfolding exec_load
  exec_load-Kept inst =
      let addr = u32 (s.regs (bits inst 15 5) + sign_extend (inst / 2 ^ 20)) in
      let byte_fits : (v : ℕ) → load8 mem_size s.memory addr ≡ some v → v < 2 ^ 32 =
        λ v e. omega (arith, load8-lt mem_size s.memory addr v ok.memory e) in
      let rd = bits inst 7 5 in
      let word_loaded =
        put_loaded-Kept rd _ (λ v e. load32-lt mem_size s.memory addr v ok.memory e) in
      let byte_loaded = put_loaded-Kept rd _ byte_fits in
      if-Kept (bits inst 12 3 == 2) _ _ word_loaded
        (if-Kept (bits inst 12 3 == 4) _ _ byte_loaded stays)

  exec_store-Kept : (inst : ℕ) → Kept s.rom (exec_store s inst)
  unfolding exec_store
  exec_store-Kept inst =
      if-Kept _ _ _ (put_stored-Kept _ (store32-IsBytes _ _ _ _ ok.memory))
        (if-Kept _ _ _ (put_stored-Kept _ (store8-IsBytes _ _ _ _ ok.memory)) stays)

  exec_system-Kept : (inst : ℕ) → Kept s.rom (exec_system s inst)
  unfolding exec_system
  exec_system-Kept inst = search (if-Kept, stays, stops)

exec_jalr-Kept : (s : State) → IsInRange s → (inst : ℕ) → Kept s.rom (exec_jalr s inst)
unfolding exec_jalr
exec_jalr-Kept s ok inst = if-Kept _ _ _ (set_reg-Kept _ jumped _ _ ok.pc) (stays s ok)
  where
    jumped :
        IsInRange
          (record s { pc = u32 (s.regs (bits inst 15 5) + sign_extend (inst / 2 ^ 20)) / 2 * 2 })
    jumped = record { regs = ok.regs; memory = ok.memory; rom = ok.rom; pc = omega arith }

execute-Kept : (s : State) → IsInRange s → (inst : ℕ) → inst < 2 ^ 32 → Kept s.rom (execute s inst)
unfolding execute
execute-Kept s ok inst h =
    let opcode = bits inst 0 7 in
    if-Kept (opcode == 0x33) _ _ (exec_op-Kept s ok inst) (
      if-Kept (opcode == 0x13) _ _ (exec_op_imm-Kept s ok inst) (
        if-Kept (opcode == 0x37) _ _ (exec_lui-Kept s ok inst h) (
          if-Kept (opcode == 0x67) _ _ (exec_jalr-Kept s ok inst) (
            if-Kept (opcode == 0x03) _ _ (exec_load-Kept s ok inst) (
              if-Kept (opcode == 0x23) _ _ (exec_store-Kept s ok inst)
                (if-Kept (opcode == 0x73) _ _ (exec_system-Kept s ok inst) (stops s ok _ _)))))))

fetched-IsInRange : (s : State) → IsInRange s → IsInRange (fetched s)
fetched-IsInRange s ok = record {
  regs = λ r. ground (arith, ok.regs r);
  memory = ok.memory;
  rom = ok.rom;
  pc = omega arith;
}

-- A cycle from a state in range goes on only with a state in range, and with the same ROM.
pub inst_cycle-Keeps : (s : State) → IsInRange s → Keeps s.rom (inst_cycle s)
unfolding inst_cycle
inst_cycle-Keeps s ok = go (load32 mem_size s.rom s.pc) refl
  where
    go : (o : Option ℕ) → load32 mem_size s.rom s.pc ≡ o → Keeps s.rom (on_fetch s o)
    go none e = tt
    go (some inst) e =
        (execute-Kept (fetched s) (fetched-IsInRange s ok) inst
          (load32-lt _ _ _ inst ok.rom e)).kept
