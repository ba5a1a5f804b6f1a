-- ===== src/Nemu/State.antt =====
-- ysyx-workbench/nemu/src/utils/state.c: the state of the emulator, and its exit status.
use for_ysyx_self_store_by_h.Base.{ℕ, Bool, true, false, not, ◌&&◌, ◌||◌, ◌==◌}

-- NEMU_RUNNING, NEMU_STOP, NEMU_END, NEMU_ABORT, NEMU_QUIT.
pub data Mode : Type 0 where
  running stop end abort quit : Mode

pub record NemuState : Type 0 where
  pub state : Mode
  pub halt_pc : ℕ
  pub halt_ret : ℕ

abbrev pub is_end : Mode → Bool
is_end end = true
is_end _ = false

abbrev pub is_quit : Mode → Bool
is_quit quit = true
is_quit _ = false

abbrev pub is_running : Mode → Bool
is_running running = true
is_running _ = false

unfoldable pub is_exit_status_bad : NemuState → Bool
is_exit_status_bad s = let good = is_end s.state && s.halt_ret == 0 || is_quit s.state in not good
