-- ===== src/Nemu/Sdb/Commands.antt =====
-- The commands of ysyx-workbench/nemu/src/monitor/sdb/sdb.c, on a session: the run of the emulator
-- and what has been printed.
use for_ysyx_self_store_by_h.Base.{
  ℕ, zero, suc, ◌+◌, ◌-◌, ◌*◌, ◌/◌, ◌^◌, Bool, false, not, ◌&&◌, ◌||◌, Option, none, some, List, [],
  ◌∷◌, ◌++◌, if◌then◌else◌, ltb, ◌==◌, u32, codes,
}
use for_ysyx_self_store_by_h.Nemu.Result.{Result, ok, ◌>>=◌}
use for_ysyx_self_store_by_h.Nemu.State.{quit}
use for_ysyx_self_store_by_h.Nemu.Memory.Mmio.{Config}
use for_ysyx_self_store_by_h.Nemu.Memory.Paddr.{vaddr_read}
use for_ysyx_self_store_by_h.Nemu.Riscv32.Registers.{isa_reg_display}
use for_ysyx_self_store_by_h.Nemu.Cpu.{Run, set_mode, cpu_exec}
use for_ysyx_self_store_by_h.Nemu.Sdb.Text.{skip_spaces, is_empty, same_text, parse_uint64, strtok}

-- The commands of cmd_table, in its order.
pub data Command : Type 0 where
  help c q si info x : Command

-- What a command prints; `registers` is what isa_reg_display shows.
pub data Line : Type 0 where
  usage_si usage_info usage_count usage_addr wraps_around bye : Line
  description : Command → Line
  unknown_command : List ℕ → Line
  registers : List (List ℕ × ℕ) → Line
  word : (addr value : ℕ) → Line

pub record Session (W : Type 0) : Type 0 where
  pub run : Run W
  pub output : List Line

abbrev pub print : {W : Type 0} → Line → Session W → Session W
print l s = record s { output = s.output ++ l ∷ [] }

abbrev pub cmd_table : List (List ℕ × Command)
cmd_table =
    (codes "help", help)
    ∷ (codes "c", c)
    ∷ (codes "q", q)
    ∷ (codes "si", si)
    ∷ (codes "info", info)
    ∷ (codes "x", x)
    ∷ []

-- The entry of a name, or `none` where the loop over the table runs through.
unfoldable pub find_command : List (List ℕ × Command) → List ℕ → Option Command
find_command [] name = none
find_command ((known, command) ∷ table) name =
    let rest = find_command table name in if same_text name known then some command else rest

abbrev pub print_all : {W : Type 0} → List (List ℕ × Command) → Session W → Session W
print_all [] s = s
print_all ((name, command) ∷ table) s = print_all table (print (description command) s)

-- What strtok(NULL, " ") goes on with.
abbrev pub text_of : Option (List ℕ) → List ℕ
text_of none = []
text_of (some text) = text

unfoldable pub cmd_help : {W : Type 0} → Option (List ℕ) → Session W → Session W
cmd_help args s = elim (strtok (text_of args)) [
  | none ↦ print_all cmd_table s
  | some (arg, rest) ↦ elim (find_command cmd_table arg) [
    | none ↦ print (unknown_command arg) s
    | some command ↦ print (description command) s
  ]
]

-- Whether the subcommand is r, and nothing behind it.
abbrev pub is_r : List ℕ → Bool
is_r [] = false
is_r (first ∷ rest) = first == b'r' && is_empty (skip_spaces rest)

unfoldable pub cmd_info : {W : Type 0} → Option (List ℕ) → Session W → Session W
cmd_info none s = print usage_info s
cmd_info (some args) s =
    if is_r (skip_spaces args)
    then print (registers (isa_reg_display s.run.machine)) s
    else print usage_info s

unfoldable pub cmd_q : {W : Type 0} → Session W → Session W
cmd_q s = print bye (record s { run = record s.run { machine = set_mode s.run.machine quit } })

module _ {W : Type 0} (c : Config) where
  -- cpu_exec (n) as a command.
  abbrev pub execute : ℕ → Session W → Result (Session W)
  execute n s = do r ← cpu_exec c n s.run; ok (record s { run = r })

  -- The argument -1 is a uint64_t.
  unfoldable pub cmd_c : Session W → Result (Session W)
  cmd_c s = execute (2 ^ 64 - 1) s

  -- Behind a number that is parsed.
  abbrev pub si_count : Option (ℕ × List ℕ) → Session W → Result (Session W)
  si_count none s = ok (print usage_si s)
  si_count (some (n, end)) s =
      if n == 0 || not (is_empty (skip_spaces end)) then ok (print usage_si s) else execute n s

  unfoldable pub cmd_si : Option (List ℕ) → Session W → Result (Session W)
  cmd_si none s = execute 1 s
  cmd_si (some args) s = si_count (parse_uint64 (some args) 10) s

  -- The loop of cmd_x from the word `i` on, for so many words.
  unfoldable pub examine : ℕ → ℕ → ℕ → Session W → Result (Session W)
  examine zero start i s = ok s
  examine (suc n) start i s = do
    let addr = u32 (start + i * 4)
    (v, bus) ← vaddr_read c addr 4 s.run.machine.bus
    examine n start (i + 1) (record s {
      run = record s.run { machine = record s.run.machine { bus = bus } };
      output = s.output ++ word addr v ∷ [];
    })

  -- Behind the address that is parsed.
  abbrev pub x_from : ℕ → Option (ℕ × List ℕ) → Session W → Result (Session W)
  x_from n none s = ok (print usage_addr s)
  x_from n (some (addr, end)) s =
      if not (is_empty (skip_spaces end)) || ltb (2 ^ 32 - 1) addr
      then ok (print usage_addr s)
      else if ltb ((2 ^ 32 - 1 - addr) / 4 + 1) n
      then ok (print wraps_around s)
      else examine n addr 0 s

  -- Behind the count.
  abbrev pub x_count : Option (ℕ × List ℕ) → Session W → Result (Session W)
  x_count none s = ok (print usage_count s)
  x_count (some (n, addr_str)) s =
      if n == 0 then ok (print usage_count s) else x_from n (parse_uint64 (some addr_str) 0) s

  unfoldable pub cmd_x : Option (List ℕ) → Session W → Result (Session W)
  cmd_x args s = x_count (parse_uint64 args 10) s
