-- ===== src/Nemu/Sdb/Examples.antt =====
-- Runs of the debugger of ysyx-workbench/nemu/src/monitor/sdb, on the built-in image.
use for_ysyx_self_store_by_h.Base.{
  ℕ, ◌≡◌, refl, arith, none, some, List, [], ◌∷◌, ◌++◌, codes, if◌then◌else◌, ltb, get_elem?, ◌^◌,
  Option,
}
use for_ysyx_self_store_by_h.Nemu.Result.{ok}
use for_ysyx_self_store_by_h.Nemu.State.{stop}
use for_ysyx_self_store_by_h.Nemu.Riscv32.{Machine, init_isa, restart}
use for_ysyx_self_store_by_h.Nemu.Riscv32.Registers.{isa_reg_display}
use for_ysyx_self_store_by_h.Nemu.Cpu.Image.{default_config, booted}
use for_ysyx_self_store_by_h.Nemu.Sdb.Text.{
  skip_spaces, digit_value, read_digits, strtoull, parse_uint64, skip_blanks, take_token, strtok,
}
use for_ysyx_self_store_by_h.Nemu.Sdb.Numbers.{digits_value, parse_uint64-decimal}
use for_ysyx_self_store_by_h.Nemu.Sdb.Commands.{
  word, usage_si, Session, cmd_si, cmd_help, description, find_command, info, cmd_info, registers,
}
use for_ysyx_self_store_by_h.Nemu.Sdb.Steps.{IsWordMemory, words_from}
use for_ysyx_self_store_by_h.Nemu.Sdb.Watchpoint.{Pool, link, init_wp_pool, follow}

abbrev powered : Machine (Unit {0})
powered = record {
  gpr = λ i. 5;
  pc = 0;
  nemu = record { state = stop; halt_pc = 0; halt_ret = 0 };
  bus = record { pmem = λ i. 9; maps = []; io = record { io_space = λ i. 0; devices = tt } };
}

abbrev opened : Session (Unit {0})
opened = record { run = booted powered 0; output = [] }

parse_uint64-decimal_example :
    parse_uint64 (some (codes "  " ++ b'1' ∷ (codes "20" ++ codes " x"))) 10 ≡ (
      if ltb (digits_value 10 0 (codes "120")) (2 ^ 64)
      then some (digits_value 10 0 (codes "120"), codes " x")
      else none)
unfolding digit_value
parse_uint64-decimal_example =
    parse_uint64-decimal (codes "  ") b'1' (codes "20") (codes " x") (refl, (refl, tt))
      (omega arith, (omega arith, (omega arith, tt))) refl

-- What the parser makes of other texts.
abbrev number : List ℕ → ℕ → Option (ℕ × List ℕ)
number text base = parse_uint64 (some text) base

hexadecimal : number (codes "0x1F rest") 0 ≡ some (31, codes " rest")
unfolding parse_uint64 skip_spaces strtoull read_digits digit_value
hexadecimal = refl

octal : number (codes "+017") 0 ≡ some (15, [])
unfolding parse_uint64 skip_spaces strtoull read_digits digit_value
octal = refl

only_zero : number (codes "0xg") 0 ≡ some (0, codes "xg")
unfolding parse_uint64 skip_spaces strtoull read_digits digit_value
only_zero = refl

negative : number (codes " -1") 10 ≡ none
unfolding parse_uint64 skip_spaces strtoull read_digits digit_value
negative = refl

out_of_range : number (codes "18446744073709551616") 10 ≡ none
unfolding parse_uint64 skip_spaces strtoull read_digits digit_value
out_of_range = refl

zero_refused :
    cmd_si default_config (some (codes "0")) opened ≡ ok (record opened { output = usage_si ∷ [] })
unfolding cmd_si parse_uint64 skip_spaces strtoull read_digits digit_value
zero_refused = refl

words_wanted : parse_uint64 (some (codes "2 0x80000004")) 10 ≡ some (2, codes " 0x80000004")
unfolding parse_uint64 skip_spaces strtoull read_digits digit_value
words_wanted = refl

words_at : parse_uint64 (some (codes " 0x80000004")) 0 ≡ some (0x80000004, [])
unfolding parse_uint64 skip_spaces strtoull read_digits digit_value
words_at = refl

default_memory : IsWordMemory default_config
default_memory = record { base = refl; size = refl; fits = omega arith }

-- These are the second and the third instruction of the image.
words_of_image :
    words_from default_config opened.run.machine.bus.pmem 2 0x80000004 0
    ≡ word 0x80000004 0x00028823 ∷ word 0x80000008 0x0102c503 ∷ []
unfolding init_isa restart
words_of_image = refl

quits : strtok (codes " q now") ≡ some (codes "q", codes "now")
unfolding strtok skip_blanks take_token
quits = refl

helps : (cmd_help (some (codes "info")) opened).output ≡ description info ∷ []
unfolding cmd_help strtok skip_blanks take_token find_command
helps = refl

shows_registers :
    (cmd_info (some (codes " r ")) opened).output
    ≡ registers (isa_reg_display opened.run.machine) ∷ []
unfolding cmd_info skip_spaces
shows_registers = refl

abbrev display : List (List ℕ × ℕ)
display = isa_reg_display opened.run.machine

-- PC, then register 0, then the others; the last of them is t6.
displays :
    (get_elem? display 0 ≡ some (codes "pc", 0x80000000))
    × (get_elem? display 1 ≡ some (codes "$0", 0))
    × (get_elem? display 32 ≡ some (codes "t6", 5))
    × (get_elem? display 33 ≡ none)
unfolding isa_reg_display init_isa restart
displays = (refl, refl, refl, refl)

abbrev used : Pool
used = record { no = λ i. 7; next = λ i. some 3; head = some 4; free = none }

-- Whatever was in the pool, all 32 watchpoints are free behind init_wp_pool.
free_ones :
    follow (init_wp_pool used) 100 (init_wp_pool used).free
    ≡ 0 ∷ 1 ∷ 2 ∷ 3 ∷ 4 ∷ 5 ∷ 6 ∷ 7 ∷ 8 ∷ 9 ∷ 10 ∷ 11 ∷ 12 ∷ 13 ∷ 14 ∷ 15 ∷ 16 ∷ 17 ∷ 18 ∷ 19 ∷ 20
      ∷ 21 ∷ 22 ∷ 23 ∷ 24 ∷ 25 ∷ 26 ∷ 27 ∷ 28 ∷ 29 ∷ 30 ∷ 31 ∷ []
unfolding init_wp_pool link
free_ones = refl
