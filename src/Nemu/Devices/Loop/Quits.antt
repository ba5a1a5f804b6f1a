-- ===== src/Nemu/Devices/Loop/Quits.antt =====
-- How SDL_QUIT ends the loop of ysyx-workbench/nemu/src/cpu/cpu-exec.c.
use for_ysyx_self_store_by_h.Base.{
  ℕ, suc, ◌+◌, ◌-◌, ◌%◌, ◌^◌, ◌≤◌, ◌≡◌, inl, inr, refl, ap, sym, ◌∙◌, arith, true, false, ltb, List,
  [], ◌++◌, length,
}
use for_ysyx_self_store_by_h.Nemu.Result.{
  Result, ok, failed, fault, ◌>>=◌, Ensures, Ensures-ok, Ensures-chain,
}
use for_ysyx_self_store_by_h.Nemu.State.{quit, NemuState, is_running, running}
use for_ysyx_self_store_by_h.Nemu.Memory.Mmio.{Config}
use for_ysyx_self_store_by_h.Nemu.Riscv32.{Machine}
use for_ysyx_self_store_by_h.Nemu.Riscv32.Effects.{RunsOrEnds, Advances, exec_once-Advances}
use for_ysyx_self_store_by_h.Nemu.Cpu.{has_ended, exec_once}
use for_ysyx_self_store_by_h.Nemu.Cpu.Laws.{is_running-ended}
use for_ysyx_self_store_by_h.Nemu.Keyboard.Fifo.{Holds}
use for_ysyx_self_store_by_h.Nemu.Devices.Clock.{get_time}
use for_ysyx_self_store_by_h.Nemu.Devices.World.{World}
use for_ysyx_self_store_by_h.Nemu.Devices.Update.{Event, Host, device_update}
use for_ysyx_self_store_by_h.Nemu.Devices.Update.Keys.{
  key_codes, mode_after, device_update-PollEnds,
}
use for_ysyx_self_store_by_h.Nemu.Devices.Loop.{Busy, counted, with_world, update_devices, execute}

-- An instruction of an emulator that has quit leaves it quit, ended or aborted.
stays_ended : (n n' : NemuState) → n.state ≡ quit → RunsOrEnds n n' → has_ended n'.state ≡ true
stays_ended n n' h (inl e) = ap (λ (s : NemuState). has_ended s.state) e ∙ ap has_ended h
stays_ended n n' h (inr (inl e)) = ap has_ended e
stays_ended n n' h (inr (inr e)) = ap has_ended e

-- What device_update makes of the state behind an instruction, if it takes all events.
abbrev pub after : Machine World → Busy → Host → Busy
after m b h = record {
  run = record {
    machine = with_world h.world (record m { nemu = h.nemu });
    nr_guest_inst = (b.run.nr_guest_inst + 1) % 2 ^ 64;
  };
  last = h.last;
  queued = [];
  polls = b.polls + 1;
  g_timer = b.g_timer;
}

-- One instruction, counted.
abbrev pub last_instruction : Config → Busy → Result Busy
last_instruction c b = do m ← exec_once c b.run.machine.pc b.run.machine; ok (counted m b)

module _ (c : Config) (keymap : ℕ → ℕ) (arrivals : ℕ → List Event) where
  -- From an emulator that has quit, the loop executes one instruction more.
  execute-quit :
      (n : ℕ) (b : Busy)
      → b.run.machine.nemu.state ≡ quit
      → execute c keymap arrivals (suc n) b ≡ last_instruction c b
  unfolding execute
  execute-quit n b h =
      go (exec_once c b.run.machine.pc b.run.machine) (exec_once-Advances c b.run.machine)
    where
      go :
          (r : Result (Machine World))
          → Ensures (Advances b.run.machine) r
          → ◌≡◌ {A = Result Busy}
              (elim r [
                | failed e ↦ failed e
                | fault ↦ fault
                | ok m ↦ elim (is_running m.nemu.state) [
                  | false ↦ ok (counted m b)
                  | true ↦ elim (update_devices keymap arrivals (counted m b)) [
                    | failed e ↦ failed e
                    | fault ↦ fault
                    | ok b' ↦ execute c keymap arrivals n b'
                  ]
                ]
              ])
              (r >>= λ m. ok (counted m b))
      go (failed e) a = refl
      go fault a = refl
      go (ok m) a =
          let over = stays_ended b.run.machine.nemu m.nemu h a.holds.state_kept in
          rw (is_running-ended m.nemu.state over) refl

  -- The loop behind an instruction and an update.
  execute-next :
      (n : ℕ) (b : Busy) (m : Machine World) (b' : Busy)
      → exec_once c b.run.machine.pc b.run.machine ≡ ok m
      → is_running m.nemu.state ≡ true
      → update_devices keymap arrivals (counted m b) ≡ ok b'
      → execute c keymap arrivals (suc n) b ≡ execute c keymap arrivals n b'
  unfolding execute
  execute-next n b m b' done run updated = rw (done, execute) (rw run (rw updated refl))

  last_instruction-ends :
      (b : Busy)
      → b.run.machine.nemu.state ≡ quit
      → Ensures
          (λ (ended : Busy). has_ended ended.run.machine.nemu.state ≡ true)
          (last_instruction c b)
  last_instruction-ends b h =
      Ensures-chain (exec_once c b.run.machine.pc b.run.machine) (λ m. ok (counted m b))
        (exec_once-Advances c b.run.machine)
        (λ m a. Ensures-ok _ (stays_ended b.run.machine.nemu m.nemu h a.state_kept))

  -- An instruction leaves the emulator running, and at least 1/60 second has passed since the last
  -- update. Then device_update takes the events: if SDL_QUIT is among them, and the keys before it have
  -- room in the queue, the loop, whatever is left of its instructions, executes one more and ends,
  -- with the emulator quit, ended or aborted, unless that instruction fails. The keys are in the queue.
  pub execute-sdl_quit :
      (n : ℕ) (b : Busy) (m : Machine World) (keys : List ℕ) (events : List Event)
      → exec_once c b.run.machine.pc b.run.machine ≡ ok m
      → m.nemu.state ≡ running
      → events ≡ b.queued ++ arrivals b.polls
      → ltb (((get_time m.bus.io.devices.clock).0 + 2 ^ 64 - b.last) % 2 ^ 64) 16666 ≡ false
      → Holds m.bus.io.devices.keys keys
      → mode_after events ≡ quit
      → length keys + length (key_codes keymap events) ≤ 1023
      → (b' : Busy) × (execute c keymap arrivals (suc (suc n)) b ≡ last_instruction c b')
        × Ensures
            (λ (ended : Busy). has_ended ended.run.machine.nemu.state ≡ true)
            (last_instruction c b')
        × (b'.run.machine.nemu.state ≡ quit)
        × Holds b'.run.machine.bus.io.devices.keys (keys ++ key_codes keymap events)
  unfolding update_devices
  execute-sdl_quit n b m keys events done run taken due held quits fits =
      let host : Host = record { last = b.last; nemu = m.nemu; world = m.bus.io.devices } in
      let (r, updates, ends) = device_update-PollEnds keymap events host keys run held in
      elim ends [
        | inr (over, _) ↦ absurd (omega arith)
        | inl (h', _, polled, p) ↦
            let b' : Busy = after m b h' in
            let quit_mode : h'.nemu.state ≡ quit = ap (λ n. n.state) p.mode ∙ quits in
            let taken_all : device_update keymap events host ≡ ok (h', []) =
              updates ∙ rw due (rw polled refl) in
            let updated_b : update_devices keymap arrivals (counted m b) ≡ ok b' =
              rw (sym taken) (rw taken_all refl) in
            (
              b',
              execute-next (suc n) b m b' done (ap is_running run) updated_b
                  ∙ execute-quit n b' quit_mode,
              last_instruction-ends b' quit_mode,
              quit_mode,
              p.holds,
            )
      ]
