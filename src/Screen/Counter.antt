-- ===== src/Screen/Counter.antt =====
-- PC of the emulator with a screen is a uint32_t, and the loop compares it with 2 ^ 32.
use for_ysyx_self_store_by_h.Base.{
  ℕ, suc, ◌+◌, ◌/◌, ◌^◌, ◌<◌, ◌≡◌, ap, subst, arith, Bool, true, false, Option, some, none,
  if◌then◌else◌, ltb, leb, ◌&&◌, ◌==◌, bits, load32, load32-none,
}
use for_ysyx_self_store_by_h.MiniRv.Machine
use for_ysyx_self_store_by_h.MiniRv.Machine.{running}
use for_ysyx_self_store_by_h.MiniRv.Exec
use for_ysyx_self_store_by_h.Screen.Machine.{
  State, Outcome, goes_on, ended, out_of_range, rom_size, on_cpu, exec_op, exec_op_imm, exec_lui,
  exec_jalr, exec_load, exec_store, store_word, exec_system, execute, on_fetch, inst_cycle,
  screen_base, screen_end,
}
use for_ysyx_self_store_by_h.Screen.Boot.{is_past, exits, loop}

abbrev Counts : Outcome → Type 0
Counts (goes_on t) = t.cpu.pc < 2 ^ 32
Counts (ended code m) = Unit
Counts out_of_range = Unit

record Counted (o : Outcome) : Type 0 where
  counts : Counts o

if-Counted : (b : Bool) (x y : Outcome) → Counted x → Counted y → Counted (if b then x else y)
if-Counted true x y p q = p
if-Counted false x y p q = q

module _ (s : State) (h : s.cpu.pc < 2 ^ 32) (inst : ℕ) where
  cpu-Counted : (c : Machine.State) → c.pc < 2 ^ 32 → Counted (on_cpu s (running c))
  cpu-Counted c low = record { counts = low }

  cpu_if-Counted :
      (b : Bool) (x y : Machine.Outcome)
      → Counted (on_cpu s x)
      → Counted (on_cpu s y)
      → Counted (on_cpu s (if b then x else y))
  cpu_if-Counted true x y p q = p
  cpu_if-Counted false x y p q = q

  stays : Counted (goes_on s)
  stays = record { counts = h }

  put_loaded-Counted : (rd : ℕ) (o : Option ℕ) → Counted (on_cpu s (Exec.put_loaded s.cpu rd o))
  put_loaded-Counted rd none = record { counts = tt }
  put_loaded-Counted rd (some v) = record { counts = h }

  put_stored-Counted : (o : Option (ℕ → ℕ)) → Counted (on_cpu s (Exec.put_stored s.cpu o))
  put_stored-Counted none = record { counts = tt }
  put_stored-Counted (some a) = record { counts = h }

  exec_op-Counted : Counted (exec_op s inst)
  unfolding exec_op Exec.exec_op
  exec_op-Counted =
      cpu_if-Counted ((bits inst 12 3 == 0) && (bits inst 25 7 == 0)) _ _ (cpu-Counted _ h)
        (cpu-Counted _ h)

  exec_op_imm-Counted : Counted (exec_op_imm s inst)
  unfolding exec_op_imm Exec.exec_op_imm
  exec_op_imm-Counted = cpu_if-Counted (bits inst 12 3 == 0) _ _ (cpu-Counted _ h) (cpu-Counted _ h)

  exec_lui-Counted : Counted (exec_lui s inst)
  unfolding exec_lui Exec.exec_lui
  exec_lui-Counted = cpu-Counted _ h

  exec_jalr-Counted : Counted (exec_jalr s inst)
  unfolding exec_jalr Exec.exec_jalr
  exec_jalr-Counted =
      cpu_if-Counted (bits inst 12 3 == 0) _ _ (cpu-Counted _ (omega arith)) (cpu-Counted _ h)

  exec_load-Counted : Counted (exec_load s inst)
  unfolding exec_load
  exec_load-Counted =
      if-Counted (bits inst 12 3 == 2) _ _ (put_loaded-Counted _ _)
        (if-Counted (bits inst 12 3 == 4) _ _ (put_loaded-Counted _ _) stays)

  store_word-Counted : (addr v : ℕ) → Counted (store_word s addr v)
  unfolding store_word
  store_word-Counted addr v =
      if-Counted (leb screen_base addr && ltb addr screen_end) _ _ (record { counts = h })
        (put_stored-Counted _)

  exec_store-Counted : Counted (exec_store s inst)
  unfolding exec_store
  exec_store-Counted =
      if-Counted (bits inst 12 3 == 2) _ _ (store_word-Counted _ _)
        (if-Counted (bits inst 12 3 == 0) _ _ (put_stored-Counted _) stays)

  exec_system-Counted : Counted (exec_system s inst)
  unfolding exec_system
  exec_system-Counted =
      if-Counted (bits inst 12 3 == 0) _ _
        (if-Counted (inst / 2 ^ 20 == 1) _ _ (record { counts = h })
          (if-Counted (inst / 2 ^ 20 == 0) _ _ (record { counts = tt }) stays))
        stays

  execute-Counted : Counted (execute s inst)
  unfolding execute
  execute-Counted = if-Counted (bits inst 0 7 == 0x33) _ _ exec_op-Counted (
      if-Counted (bits inst 0 7 == 0x13) _ _ exec_op_imm-Counted (
        if-Counted (bits inst 0 7 == 0x37) _ _ exec_lui-Counted (
          if-Counted (bits inst 0 7 == 0x67) _ _ exec_jalr-Counted (
            if-Counted (bits inst 0 7 == 0x03) _ _ exec_load-Counted (
              if-Counted (bits inst 0 7 == 0x23) _ _ exec_store-Counted (
                if-Counted (bits inst 0 7 == 0x73) _ _ exec_system-Counted
                  (record { counts = tt })))))))

inst_cycle-Counted : (s : State) → Counted (inst_cycle s)
unfolding inst_cycle
inst_cycle-Counted s = go (load32 rom_size s.cpu.rom s.cpu.pc)
  where
    go : (o : Option ℕ) → Counted (on_fetch s o)
    go none = record { counts = tt }
    go (some inst) = execute-Counted (record s { cpu = Exec.fetched s.cpu }) (omega arith) inst

-- The check on PC behind a cycle never leaves the loop: whatever the cycle did, PC is at most 2 ^ 32.
pub inst_cycle-inside : (s t : State) → inst_cycle s ≡ goes_on t → is_past t ≡ false
inst_cycle-inside s t h =
    let low = (subst Counted h (inst_cycle-Counted s)).counts in ground (arith, low)

fetch-past_rom : (t : State) → rom_size < t.cpu.pc + 4 → inst_cycle t ≡ out_of_range
unfolding inst_cycle
fetch-past_rom t past = ap (on_fetch t) (load32-none rom_size t.cpu.rom t.cpu.pc past)

-- So a cycle that leaves the loop running with PC at the end of ROM, or less than a word below or
-- anywhere behind, is followed by a fetch out of range: the loop does not end with a message.
loop-past_rom :
    (n : ℕ) (s t : State)
    → s.is_running ≡ true
    → inst_cycle s ≡ goes_on t
    → t.is_running ≡ true
    → rom_size < t.cpu.pc + 4
    → loop (suc (suc n)) s ≡ exits out_of_range
unfolding loop
loop-past_rom n s t runs cycle still past =
    ground (arith, runs, cycle, still, inst_cycle-inside s t cycle, fetch-past_rom t past)
