-- ===== src/Screen/Examples.antt =====
-- The theorems about the emulator with a screen at concrete programs, and tests.
use for_ysyx_self_store_by_h.Base.{
  ℕ, ◌+◌, ◌^◌, ◌≡◌, inl, refl, arith, true, false, some, none, put_word, update, load32, [], ◌∷◌,
}
use for_ysyx_self_store_by_h.MiniRv.Machine.{hit_good_trap, running, exited}
use for_ysyx_self_store_by_h.MiniRv.Machine
use for_ysyx_self_store_by_h.MiniRv.Exec
use for_ysyx_self_store_by_h.MiniRv.Boot
use for_ysyx_self_store_by_h.Screen.Machine.{
  State, goes_on, inst_cycle, execute, exec_jalr, store_word, screen_base,
}
use for_ysyx_self_store_by_h.Screen.Boot.{
  loop, start, started, cannot_open, no_memory, load_image, wait_escape,
}
use for_ysyx_self_store_by_h.Screen.Simulates.{with_screen, Simulated, inst_cycle-Simulated}
use for_ysyx_self_store_by_h.Screen.Loop.{Draws, loop-trap}

-- addi a0, a0, 0; ebreak
abbrev small : Machine.State
small = record {
  regs = λ r. 0;
  memory = λ i. 0;
  rom = put_word (put_word (λ i. 0) 0 0x00050513) 4 0x00100073;
  pc = 0;
}

-- A RAM that holds other bytes behind the first megabyte.
abbrev large : ℕ → ℕ
large i = update (λ j. 0) (2 ^ 21) 9 i

abbrev black : ℕ → ℕ
black i = 0

inst_cycle-Simulated_example :
    Simulated black (Exec.inst_cycle small) (inst_cycle (with_screen small large black))
inst_cycle-Simulated_example = inst_cycle-Simulated black small large (λ i below. ground arith)

small_traps : Boot.loop 2 small ≡ exited 0 hit_good_trap
unfolding Boot.loop Boot.iterate Exec.inst_cycle Exec.execute Exec.exec_op_imm Exec.exec_system
    load32
small_traps = refl

loop-trap_example : Draws hit_good_trap (loop 3 (with_screen small large black))
loop-trap_example =
    loop-trap black 2 small large 0 hit_good_trap (λ i below. ground arith) (inl refl) small_traps

-- jalr zero, 0(ra), with ra at the end of ROM.
abbrev edge : State
edge =
    with_screen
      (record { regs = λ r. 2 ^ 20; memory = λ i. 0; rom = put_word (λ i. 0) 0 0x00008067; pc = 0 })
      large black

abbrev behind : State
behind = record edge { cpu = Exec.set_reg (record (Exec.fetched edge.cpu) { pc = 2 ^ 20 }) 0 4 }

edge_runs : inst_cycle edge ≡ goes_on behind
unfolding inst_cycle execute exec_jalr Exec.exec_jalr load32
edge_runs = refl

-- A word stored in the frame buffer is a pixel, and a byte is not.
pixel_drawn :
    (s : State)
    → store_word s (screen_base + 8) 0xffffff
      ≡ goes_on (record s { screen = update s.screen 2 0xffffff })
unfolding store_word
pixel_drawn s = refl

main_starts :
    (start none (some large) (some []) ≡ no_memory)
    × (start (some large) (some black) none ≡ cannot_open)
    × (start (some large) (some black) (some (1 ∷ 2 ∷ []))
        ≡ started (load_image (1 ∷ 2 ∷ []) 2 large black))
unfolding start
main_starts = (refl, refl, refl)

escape_halts :
    (wait_escape 1 ((5, true) ∷ (1, false) ∷ (1, true) ∷ []) ≡ some 0)
    × (wait_escape 1 ((5, true) ∷ []) ≡ none)
unfolding wait_escape
escape_halts = (refl, refl)
