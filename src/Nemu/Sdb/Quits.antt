-- ===== src/Nemu/Sdb/Quits.antt =====
-- How the main loop of ysyx-workbench/nemu/src/monitor/sdb/sdb.c ends.
use for_ysyx_self_store_by_h.Base.{
  ℕ, ◌∷◌, [], ◌++◌, true, false, ◌≡◌, refl, ap, ◌∙◌, fun_ext, sym, List, codes, some,
}
use for_ysyx_self_store_by_h.Nemu.Result.{ok, ◌>>=◌}
use for_ysyx_self_store_by_h.Nemu.State.{is_exit_status_bad}
use for_ysyx_self_store_by_h.Nemu.Memory.Mmio.{Config}
use for_ysyx_self_store_by_h.Nemu.Sdb.Text.{strtok}
use for_ysyx_self_store_by_h.Nemu.Sdb.Commands.{Session, find_command, cmd_q}
use for_ysyx_self_store_by_h.Nemu.Sdb.Mainloop.{run_line, go_on, read_lines, handle}

module _ {W : Type 0} (cfg : Config) where
  -- A line whose first token is q.
  run_line-q :
      (str rest : List ℕ) (s : Session W)
      → strtok str ≡ some (codes "q", rest)
      → run_line cfg str s ≡ ok (cmd_q s, true)
  unfolding run_line handle find_command
  run_line-q str rest s h = rw (run_line, h) refl

  -- Where the first token of a line is q, nothing behind that line matters: whatever the lines
  -- before it are, the loop does the same if it is the last one. If there is none before, the loop
  -- returns, and the exit status is good.
  read_lines-q :
      (lines later : List (List ℕ)) (str rest : List ℕ) (s : Session W)
      → strtok str ≡ some (codes "q", rest)
      → (read_lines cfg (lines ++ str ∷ later) s ≡ read_lines cfg (lines ++ str ∷ []) s)
        × (read_lines cfg (str ∷ later) s ≡ ok (cmd_q s))
        × (is_exit_status_bad (cmd_q s).run.machine.nemu ≡ false)
  unfolding read_lines cmd_q is_exit_status_bad
  read_lines-q lines later str rest s h = (go lines s, at_q later s, refl)
    where
      at_q :
          (more : List (List ℕ)) (s : Session W)
          → (run_line cfg str s >>= go_on cfg (read_lines cfg more)) ≡ ok (cmd_q s)
      at_q more s = rw (run_line-q str rest s h) refl

      go :
          (lines : List (List ℕ)) (s : Session W)
          → read_lines cfg (lines ++ str ∷ later) s ≡ read_lines cfg (lines ++ str ∷ []) s
      go [] s = at_q later s ∙ sym (at_q [] s)
      go (l ∷ lines) s =
          ap (λ next. run_line cfg l s >>= go_on cfg next) (fun_ext (λ s'. go lines s'))
