-- ===== src/Screen/Loop.antt =====
-- The two loops of main, with and without a screen.
use for_ysyx_self_store_by_h.Base.{
  ℕ, zero, suc, ◌≤◌, ◌≡◌, ◌⊎◌, inl, inr, refl, ap, ◌∙◌, sym, subst, arith, true, false, some, ltb,
  Bool-cases,
}
use for_ysyx_self_store_by_h.MiniRv.Machine.{
  Message, pc_out_of_bounds, ecall_called, unknown_instruction, hit_good_trap, hit_bad_trap,
  running, exited, fault, mem_size,
}
use for_ysyx_self_store_by_h.MiniRv.Machine
use for_ysyx_self_store_by_h.MiniRv.Exec
use for_ysyx_self_store_by_h.MiniRv.Boot.{iterate, check_pc}
use for_ysyx_self_store_by_h.MiniRv.Boot
use for_ysyx_self_store_by_h.Screen.Machine.{State, goes_on, inst_cycle}
use for_ysyx_self_store_by_h.Screen.Boot.{is_past, drawn, Ending, loop}
use for_ysyx_self_store_by_h.Screen.Agrees.{Agrees}
use for_ysyx_self_store_by_h.Screen.Simulates.{
  StopsLike, with_screen, Simulated, inst_cycle-Simulated,
}

eq_of_running : {s s' : Machine.State} → running s ≡ running s' → s ≡ s'
eq_of_running h = cc

message_of_exited :
    {code code' : ℕ} {msg msg' : Message} → exited code' msg' ≡ exited code msg → msg' ≡ msg
message_of_exited h = cc

abbrev pub IsTrap : Message → Type 0
IsTrap msg = (msg ≡ hit_good_trap) ⊎ (msg ≡ hit_bad_trap)

-- The other messages.
abbrev IsOther : Message → Type 0
IsOther hit_good_trap = ⊥
IsOther hit_bad_trap = ⊥
IsOther _ = Unit

IsTrap-not_other : (msg : Message) → IsOther msg → ¬ IsTrap msg
IsTrap-not_other msg other (inl e) = subst IsOther e other
IsTrap-not_other msg other (inr e) = subst IsOther e other

-- The picture is drawn in a state that has printed the message.
abbrev pub Draws : Message → Ending → Type 0
Draws msg o = (t : State) × (o ≡ drawn t) × (t.trap ≡ some msg)

module _ (screen : ℕ → ℕ) where
  -- One round of the loop with a screen, for a cycle that goes on below the end of ROM.
  loop-next :
      (n : ℕ) (t t' : State)
      → t.is_running ≡ true
      → inst_cycle t ≡ goes_on t'
      → is_past t' ≡ false
      → loop (suc n) t ≡ loop n t'
  unfolding loop
  loop-next n t t' runs cycle inside = ground (arith, runs, cycle, inside)

  -- Where the other loop goes on, so does this one.
  round-running :
      (n : ℕ) (s s' : Machine.State) (m : ℕ → ℕ)
      → Agrees s.memory m
      → iterate s ≡ running s'
      → (m' : ℕ → ℕ) × Agrees s'.memory m'
        × (loop (suc n) (with_screen s m screen) ≡ loop n (with_screen s' m' screen))
  unfolding iterate
  round-running n s s' m h it = go (Exec.inst_cycle s) (inst_cycle-Simulated screen s m h) it
    where
      Goal : Machine.State → Type 0
      Goal u =
          (m' : ℕ → ℕ) × Agrees u.memory m'
          × (loop (suc n) (with_screen s m screen) ≡ loop n (with_screen u m' screen))

      within :
          (u : Machine.State)
          → Simulated screen (running u) (inst_cycle (with_screen s m screen))
          → u.pc ≤ mem_size
          → Goal u
      within u q below =
          let (m', agrees, cycle) = q.asked in
          let inside : is_past (with_screen u m' screen) ≡ false = ground arith in
          (
            m',
            agrees,
            loop-next n (with_screen s m screen) (with_screen u m' screen) refl cycle inside,
          )

      go :
          (o : Machine.Outcome)
          → Simulated screen o (inst_cycle (with_screen s m screen))
          → check_pc o ≡ running s'
          → Goal s'
      go (running u) q e = elim (Bool-cases (ltb mem_size u.pc)) [
        | inl past ↦ let stopped : exited 0 pc_out_of_bounds ≡ running s' = rw past at e in cc
        | inr below ↦
            let goes : running u ≡ running s' = rw below at e in
            subst Goal (eq_of_running goes) (within u q (ground arith))
      ]
      go (exited code msg) q e = cc
      go fault q e = cc

  -- A state that a trap has stopped is drawn, whatever its PC.
  loop-stopped :
      (n : ℕ) (t t' : State) (msg : Message)
      → t.is_running ≡ true
      → inst_cycle t ≡ goes_on t'
      → t'.is_running ≡ false
      → t'.trap ≡ some msg
      → Draws msg (loop (suc (suc n)) t)
  unfolding loop
  loop-stopped n t t' msg runs cycle stopped message =
      (t', ground (arith, runs, cycle, stopped), message)

  round-trap :
      (n : ℕ) (s : Machine.State) (m : ℕ → ℕ) (code : ℕ) (msg : Message)
      → Agrees s.memory m
      → IsTrap msg
      → iterate s ≡ exited code msg
      → Draws msg (loop (suc (suc n)) (with_screen s m screen))
  unfolding iterate
  round-trap n s m code msg h trap it =
      go (Exec.inst_cycle s) (inst_cycle-Simulated screen s m h) it
    where
      at_trap :
          (code' : ℕ) (msg' : Message)
          → msg' ≡ msg
          → StopsLike code' msg' (inst_cycle (with_screen s m screen))
          → Draws msg (loop (suc (suc n)) (with_screen s m screen))
      at_trap code' hit_good_trap e (t, cycle, stopped, message) =
          loop-stopped n (with_screen s m screen) t msg refl cycle stopped (message ∙ ap some e)
      at_trap code' hit_bad_trap e (t, cycle, stopped, message) =
          loop-stopped n (with_screen s m screen) t msg refl cycle stopped (message ∙ ap some e)
      at_trap code' ecall_called e q =
          absurd (IsTrap-not_other ecall_called tt (subst IsTrap (sym e) trap))
      at_trap code' (unknown_instruction o p) e q =
          absurd (IsTrap-not_other (unknown_instruction o p) tt (subst IsTrap (sym e) trap))
      at_trap code' pc_out_of_bounds e q =
          absurd (IsTrap-not_other pc_out_of_bounds tt (subst IsTrap (sym e) trap))

      go :
          (o : Machine.Outcome)
          → Simulated screen o (inst_cycle (with_screen s m screen))
          → check_pc o ≡ exited code msg
          → Draws msg (loop (suc (suc n)) (with_screen s m screen))
      go (running u) q e = elim (Bool-cases (ltb mem_size u.pc)) [
        | inl past ↦
            let stopped : exited 0 pc_out_of_bounds ≡ exited code msg = rw past at e in
            absurd (
              IsTrap-not_other pc_out_of_bounds tt
                (subst IsTrap (sym (message_of_exited stopped)) trap))
        | inr below ↦ let goes : running u ≡ exited code msg = rw below at e in cc
      ]
      go (exited code' msg') q e = at_trap code' msg' (message_of_exited e) q.asked
      go fault q e = cc

  -- When the loop without a screen ends at a trap, within `n` rounds, the loop with a screen, on the
  -- same program and a larger memory that agrees, has ended too one round later: the picture is
  -- drawn, and the same message was printed.
  pub loop-trap :
      (n : ℕ) (s : Machine.State) (m : ℕ → ℕ) (code : ℕ) (msg : Message)
      → Agrees s.memory m
      → IsTrap msg
      → Boot.loop n s ≡ exited code msg
      → Draws msg (loop (suc n) (with_screen s m screen))
  unfolding Boot.loop
  loop-trap zero s m code msg h trap e = cc
  loop-trap (suc n) s m code msg h trap e =
      go (λ u mu. loop-trap n u mu code msg) (iterate s) refl e
    where
      go :
          ((u : Machine.State) (mu : ℕ → ℕ)
            → Agrees u.memory mu
            → IsTrap msg
            → Boot.loop n u ≡ exited code msg
            → Draws msg (loop (suc n) (with_screen u mu screen)))
          → (o : Machine.Outcome) → iterate s ≡ o
          → elim o [ running s' ↦ Boot.loop n s' | exited code m ↦ exited code m | fault ↦ fault ]
            ≡ exited code msg
          → Draws msg (loop (suc (suc n)) (with_screen s m screen))
      go ih (running u) it e =
          let (mu, agrees, step) = round-running (suc n) s u m h it in
          let (t, draws, message) = ih u mu agrees trap e in (t, step ∙ draws, message)
      go ih (exited code' msg') it e = round-trap n s m code msg h trap (it ∙ e)
      go ih fault it e = cc
