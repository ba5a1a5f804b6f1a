-- ===== src/Nemu/Sdb/Mainloop.antt =====
-- sdb_mainloop of ysyx-workbench/nemu/src/monitor/sdb/sdb.c. The lines that readline returns are an
-- argument, and the end of the list is its NULL. Without CONFIG_DEVICE, the default, there is no
-- event queue to clear.
use for_ysyx_self_store_by_h.Base.{
  Bool, true, false, ℕ, Option, none, some, List, [], ◌∷◌, if◌then◌else◌,
}
use for_ysyx_self_store_by_h.Nemu.Result.{Result, ok, ◌>>=◌}
use for_ysyx_self_store_by_h.Nemu.Memory.Mmio.{Config}
use for_ysyx_self_store_by_h.Nemu.Sdb.Text.{is_empty, strtok}
use for_ysyx_self_store_by_h.Nemu.Sdb.Commands.{
  Command, help, c, q, si, info, x, Session, print, unknown_command, cmd_table, find_command,
  cmd_help, cmd_c, cmd_q, cmd_si, cmd_info, cmd_x,
}

-- The arguments: NULL if nothing is left of the line.
abbrev pub args_of : List ℕ → Option (List ℕ)
args_of rest = if is_empty rest then none else some rest

module _ {W : Type 0} (cfg : Config) where
  -- What a handler returns: the session, and whether its result is negative.
  unfoldable pub handle : Command → Option (List ℕ) → Session W → Result (Session W × Bool)
  handle help args s = ok (cmd_help args s, false)
  handle c args s = do s' ← cmd_c cfg s; ok (s', false)
  handle q args s = ok (cmd_q s, true)
  handle si args s = do s' ← cmd_si cfg args s; ok (s', false)
  handle info args s = ok (cmd_info args s, false)
  handle x args s = do s' ← cmd_x cfg args s; ok (s', false)

  -- One line: the first token names the command.
  unfoldable pub run_line : List ℕ → Session W → Result (Session W × Bool)
  run_line str s = elim (strtok str) [
    | none ↦ ok (s, false)
    | some (cmd, rest) ↦ elim (find_command cmd_table cmd) [
      | none ↦ ok (print (unknown_command cmd) s, false)
      | some command ↦ handle command (args_of rest) s
    ]
  ]

  -- A negative result ends the loop.
  abbrev pub go_on : (Session W → Result (Session W)) → Session W × Bool → Result (Session W)
  go_on next (s, true) = ok s
  go_on next (s, false) = next s

  unfoldable pub read_lines : List (List ℕ) → Session W → Result (Session W)
  read_lines [] s = ok s
  read_lines (str ∷ lines) s = run_line str s >>= go_on (read_lines lines)

  unfoldable pub sdb_mainloop : Bool → List (List ℕ) → Session W → Result (Session W)
  sdb_mainloop is_batch_mode lines s = if is_batch_mode then cmd_c cfg s else read_lines lines s
