-- ===== src/Screen/Simulates.antt =====
-- What the emulator without a screen does, the one with a screen does too.
use for_ysyx_self_store_by_h.Base.{
  ℕ, ◌+◌, ◌-◌, ◌/◌, ◌%◌, ◌^◌, ◌≡◌, inl, inr, refl, arith, Bool, true, false, Option, none, some,
  if◌then◌else◌, ltb, leb, ◌&&◌, ◌==◌, u32, bits, update, put_word, load8, load32, store8, store32,
  Bool-cases,
}
use for_ysyx_self_store_by_h.MiniRv.Machine.{
  Message, hit_good_trap, hit_bad_trap, running, exited, fault, mem_size,
}
use for_ysyx_self_store_by_h.MiniRv.Machine
use for_ysyx_self_store_by_h.MiniRv.Exec
use for_ysyx_self_store_by_h.Screen.Machine.{
  State, Outcome, goes_on, ended, ram_size, rom_size, on_cpu, exec_op, exec_op_imm, exec_lui,
  exec_jalr, exec_load, exec_store, store_word, exec_system, execute, on_fetch, inst_cycle,
}
use for_ysyx_self_store_by_h.Screen.Agrees.{
  Agrees, load32-Agrees, load8-Agrees, store32-Agrees, store8-Agrees,
}

-- The emulator with a screen in the place of the other one.
abbrev pub with_screen : Machine.State → (ℕ → ℕ) → (ℕ → ℕ) → State
with_screen s m screen = record {
  cpu = record s { memory = m };
  screen = screen;
  is_running = true;
  trap = none;
}

-- Where the emulator without a screen exits with a message: at a trap, the other one stops running
-- and has printed that message; anywhere else it exits in the same way.
abbrev pub StopsLike : ℕ → Message → Outcome → Type 0
StopsLike code hit_good_trap o =
    (t : State) × (o ≡ goes_on t) × (t.is_running ≡ false) × (t.trap ≡ some hit_good_trap)
StopsLike code hit_bad_trap o =
    (t : State) × (o ≡ goes_on t) × (t.is_running ≡ false) × (t.trap ≡ some hit_bad_trap)
StopsLike code message o = o ≡ ended code message

-- What `o`, the outcome without a screen, asks of the outcome with the screen `screen`: to go on
-- with the same registers, ROM and PC and a memory that agrees, or to stop as above. Of an access
-- that is out of range, nothing is asked.
abbrev pub Asks : (ℕ → ℕ) → Machine.Outcome → Outcome → Type 0
Asks screen (running s) o = (m : ℕ → ℕ) × Agrees s.memory m × (o ≡ goes_on (with_screen s m screen))
Asks screen (exited code message) o = StopsLike code message o
Asks screen fault o = Unit

pub record Simulated (screen : ℕ → ℕ) (o : Machine.Outcome) (o' : Outcome) : Type 0 where
  pub asked : Asks screen o o'

if-Simulated :
    (screen : ℕ → ℕ) (b : Bool) (x y : Machine.Outcome) (x' y' : Outcome)
    → Simulated screen x x'
    → Simulated screen y y'
    → Simulated screen (if b then x else y) (if b then x' else y')
if-Simulated screen true x y x' y' p q = p
if-Simulated screen false x y x' y' p q = q

lifted :
    (screen : ℕ → ℕ) (t : State) (b : Bool) (x y x' y' : Machine.Outcome)
    → Simulated screen x (on_cpu t x')
    → Simulated screen y (on_cpu t y')
    → Simulated screen (if b then x else y) (on_cpu t (if b then x' else y'))
lifted screen t true x y x' y' p q = p
lifted screen t false x y x' y' p q = q

module _ (screen : ℕ → ℕ) (s : Machine.State) (m : ℕ → ℕ) (h : Agrees s.memory m) (inst : ℕ) where
  -- Registers and PC change alike.
  alike :
      (regs : ℕ → ℕ) (pc : ℕ)
      → Simulated screen (running (record s { regs = regs; pc = pc })) (
          on_cpu (with_screen s m screen) (running (record s { regs = regs; pc = pc; memory = m })))
  alike regs pc = record { asked = (m, h, refl) }

  exec_op-Simulated : Simulated screen (Exec.exec_op s inst) (exec_op (with_screen s m screen) inst)
  unfolding exec_op Exec.exec_op
  exec_op-Simulated =
      lifted screen (with_screen s m screen) ((bits inst 12 3 == 0) && (bits inst 25 7 == 0)) _ _ _
        _ (alike _ s.pc) (alike s.regs s.pc)

  exec_op_imm-Simulated :
      Simulated screen (Exec.exec_op_imm s inst) (exec_op_imm (with_screen s m screen) inst)
  unfolding exec_op_imm Exec.exec_op_imm
  exec_op_imm-Simulated =
      lifted screen (with_screen s m screen) (bits inst 12 3 == 0) _ _ _ _ (alike _ s.pc)
        (alike s.regs s.pc)

  exec_lui-Simulated :
      Simulated screen (Exec.exec_lui s inst) (exec_lui (with_screen s m screen) inst)
  unfolding exec_lui Exec.exec_lui
  exec_lui-Simulated = alike _ s.pc

  exec_jalr-Simulated :
      Simulated screen (Exec.exec_jalr s inst) (exec_jalr (with_screen s m screen) inst)
  unfolding exec_jalr Exec.exec_jalr
  exec_jalr-Simulated =
      lifted screen (with_screen s m screen) (bits inst 12 3 == 0) _ _ _ _ (alike _ _)
        (alike s.regs s.pc)

  -- A load that the smaller memory answers, the larger one answers alike.
  put_loaded-Simulated :
      (rd : ℕ) (o o' : Option ℕ)
      → ((v : ℕ) → o ≡ some v → o' ≡ some v)
      → Simulated screen
          (Exec.put_loaded s rd o)
          (on_cpu (with_screen s m screen) (Exec.put_loaded (record s { memory = m }) rd o'))
  put_loaded-Simulated rd none o' answers = record { asked = tt }
  put_loaded-Simulated rd (some v) o' answers = rw (answers v refl) (alike _ s.pc)

  exec_load-Simulated :
      Simulated screen (Exec.exec_load s inst) (exec_load (with_screen s m screen) inst)
  unfolding exec_load Exec.exec_load
  exec_load-Simulated =
      let addr = u32 (s.regs (bits inst 15 5) + Exec.sign_extend (inst / 2 ^ 20)) in
      if-Simulated screen (bits inst 12 3 == 2) _ _ _ _
        (put_loaded-Simulated (bits inst 7 5) (load32 mem_size s.memory addr)
          (load32 ram_size m addr) (λ v. load32-Agrees s.memory m addr v h))
        (if-Simulated screen (bits inst 12 3 == 4) _ _ _ _
          (put_loaded-Simulated (bits inst 7 5) (load8 mem_size s.memory addr)
            (load8 ram_size m addr) (λ v. load8-Agrees s.memory m addr v h))
          (alike s.regs s.pc))

  -- So is a store, and it cannot reach the frame buffer.
  store_word-Simulated :
      (addr v : ℕ)
      → Simulated screen
          (Exec.put_stored s (store32 mem_size s.memory addr v))
          (store_word (with_screen s m screen) addr v)
  unfolding store_word
  store_word-Simulated addr v = go (store32 mem_size s.memory addr v) refl
    where
      go :
          (o : Option (ℕ → ℕ))
          → store32 mem_size s.memory addr v ≡ o
          → Simulated screen (Exec.put_stored s o) (
              if leb 0x20000000 addr && ltb addr 0x20040000
              then goes_on (record (with_screen s m screen) {
                screen = update screen ((addr - 0x20000000) / 4) v;
              })
              else on_cpu
                  (with_screen s m screen)
                  (Exec.put_stored (record s { memory = m }) (store32 ram_size m addr v)))
      go none e = record { asked = tt }
      go (some a) e =
          let (low, stores, agrees) = store32-Agrees s.memory m a addr v h e in
          let off : (leb 0x20000000 addr && ltb addr 0x20040000) ≡ false = ground (arith, low) in
          rw off (rw stores (record { asked = (put_word m addr v, agrees, refl) }))

  store_byte-Simulated :
      (addr v : ℕ)
      → Simulated screen (Exec.put_stored s (store8 mem_size s.memory addr v)) (
          on_cpu
            (with_screen s m screen)
            (Exec.put_stored (record s { memory = m }) (store8 ram_size m addr v)))
  store_byte-Simulated addr v = go (store8 mem_size s.memory addr v) refl
    where
      go :
          (o : Option (ℕ → ℕ))
          → store8 mem_size s.memory addr v ≡ o
          → Simulated screen (Exec.put_stored s o) (
              on_cpu
                (with_screen s m screen)
                (Exec.put_stored (record s { memory = m }) (store8 ram_size m addr v)))
      go none e = record { asked = tt }
      go (some a) e =
          let (stores, agrees) = store8-Agrees s.memory m a addr v h e in
          rw stores (record { asked = (update m addr (v % 2 ^ 8), agrees, refl) })

  exec_store-Simulated :
      Simulated screen (Exec.exec_store s inst) (exec_store (with_screen s m screen) inst)
  unfolding exec_store Exec.exec_store
  exec_store-Simulated =
      if-Simulated screen (bits inst 12 3 == 2) _ _ _ _ (store_word-Simulated _ _) (
        if-Simulated screen (bits inst 12 3 == 0) _ _ _ _ (store_byte-Simulated _ _)
          (alike s.regs s.pc))

  exec_system-Simulated :
      Simulated screen (Exec.exec_system s inst) (exec_system (with_screen s m screen) inst)
  unfolding exec_system Exec.exec_system
  exec_system-Simulated =
      if-Simulated screen (bits inst 12 3 == 0) _ _ _ _
        (if-Simulated screen (inst / 2 ^ 20 == 1) _ _ _ _
          (elim (Bool-cases (s.regs 10 == 0)) [
            | inl e ↦ rw e (record { asked = (_, refl, refl, refl) })
            | inr e ↦ rw e (record { asked = (_, refl, refl, refl) })
          ])
          (if-Simulated screen (inst / 2 ^ 20 == 0) _ _ _ _ (record { asked = refl })
            (alike s.regs s.pc)))
        (alike s.regs s.pc)

  execute-Simulated : Simulated screen (Exec.execute s inst) (execute (with_screen s m screen) inst)
  unfolding execute Exec.execute
  execute-Simulated = if-Simulated screen (bits inst 0 7 == 0x33) _ _ _ _ exec_op-Simulated (
      if-Simulated screen (bits inst 0 7 == 0x13) _ _ _ _ exec_op_imm-Simulated (
        if-Simulated screen (bits inst 0 7 == 0x37) _ _ _ _ exec_lui-Simulated (
          if-Simulated screen (bits inst 0 7 == 0x67) _ _ _ _ exec_jalr-Simulated (
            if-Simulated screen (bits inst 0 7 == 0x03) _ _ _ _ exec_load-Simulated (
              if-Simulated screen (bits inst 0 7 == 0x23) _ _ _ _ exec_store-Simulated (
                if-Simulated screen (bits inst 0 7 == 0x73) _ _ _ _ exec_system-Simulated
                  (record { asked = refl })))))))

-- On a program that keeps to the memory of the emulator without a screen, the one with a screen does
-- the same, cycle by cycle: from a running state with the same registers, ROM and PC, and a larger
-- memory that agrees, a cycle leads to such a state again, with the screen as it was, or exits in
-- the same way; where the one exits at an ebreak, the other stops running with the same message.
pub inst_cycle-Simulated :
    (screen : ℕ → ℕ) (s : Machine.State) (m : ℕ → ℕ)
    → Agrees s.memory m
    → Simulated screen (Exec.inst_cycle s) (inst_cycle (with_screen s m screen))
unfolding inst_cycle Exec.inst_cycle
inst_cycle-Simulated screen s m h = go (load32 rom_size s.rom s.pc)
  where
    go : (o : Option ℕ) → Simulated screen (Exec.on_fetch s o) (on_fetch (with_screen s m screen) o)
    go none = record { asked = tt }
    go (some inst) = execute-Simulated screen (Exec.fetched s) m h inst
