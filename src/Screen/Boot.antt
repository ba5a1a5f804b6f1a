-- ===== src/Screen/Boot.antt =====
-- The function main of ysyx-workbench/am-kernels/tests/self/C_minirv_screen/main.c: vga.bin in RAM
-- and ROM, the ebreak that is patched in, the loop, the picture, and the wait for the escape key.
use for_ysyx_self_store_by_h.Base.{
  ℕ, zero, suc, ◌^◌, Bool, true, false, ◌&&◌, Option, none, some, List, [], ◌∷◌, if◌then◌else◌, ltb,
  leb, ◌==◌, u32, length, put_word,
}
use for_ysyx_self_store_by_h.MiniRv.Boot.{image, ebreak_inst}
use for_ysyx_self_store_by_h.Screen.Machine.{
  State, Outcome, goes_on, ended, out_of_range, rom_size, ram_size, inst_cycle,
}

-- Where main stops before the loop, each with exit code 1, or the state in which the loop starts.
pub data Start : Type 0 where
  no_memory cannot_open too_large : Start
  started : State → Start

abbrev pub halt_addr : ℕ
halt_addr = 0xdb0

-- The first `n` bytes of `source` over those of `dest`.
abbrev pub copied : ℕ → (ℕ → ℕ) → (ℕ → ℕ) → ℕ → ℕ
copied n source dest i = if ltb i n then source i else dest i

-- The arrays behind malloc hold what they held, `ram` and `rom`. As much of the file as ROM can hold
-- is copied to it.
unfoldable pub load_image : List ℕ → ℕ → (ℕ → ℕ) → (ℕ → ℕ) → State
load_image file file_size ram rom =
    let memory = copied file_size (image file) ram in
    let rom_copy_size = if ltb rom_size file_size then rom_size else file_size in
    record {
      cpu = record {
        regs = λ r. 0;
        memory = memory;
        rom = put_word (copied rom_copy_size memory rom) halt_addr ebreak_inst;
        pc = 0;
      };
      screen = λ i. 0;
      is_running = true;
      trap = none;
    }

-- `ram` and `rom` stand for the two calls of malloc, `open_file` for fopen, ftell and fread. The
-- size is an int, and a negative one is larger than any RAM as an unsigned long long.
unfoldable pub start : Option (ℕ → ℕ) → Option (ℕ → ℕ) → Option (List ℕ) → Start
start none rom open_file = no_memory
start (some ram) none open_file = no_memory
start (some ram) (some rom) none = cannot_open
start (some ram) (some rom) (some file) =
    let file_size = u32 (length file) in
    if leb (2 ^ 31) file_size then too_large else started (load_image file file_size ram rom)

-- The check on PC behind a cycle leaves the loop.
abbrev pub is_past : State → Bool
is_past s = ltb ram_size s.cpu.pc

-- What the loop has come to: it is still running when the rounds are used up, it is left and the
-- picture is drawn, or the emulator exits or accesses an array out of range.
pub data Ending : Type 0 where
  looping drawn : State → Ending
  exits : Outcome → Ending

unfoldable pub loop : ℕ → State → Ending
loop zero s = looping s
loop (suc rounds) s = elim s.is_running [
  | false ↦ drawn s
  | true ↦ elim (inst_cycle s) [
    | goes_on s' ↦ elim (is_past s') [ true ↦ drawn s' | false ↦ loop rounds s' ]
    | ended code m ↦ exits (ended code m)
    | out_of_range ↦ exits out_of_range
  ]
]

-- The events that are read until the escape key goes down, which halts with 0; `none` if it never
-- does. `escape` is AM_KEY_ESCAPE.
unfoldable pub wait_escape : ℕ → List (ℕ × Bool) → Option ℕ
wait_escape escape [] = none
wait_escape escape ((keycode, keydown) ∷ events) =
    let rest = wait_escape escape events in if (keycode == escape) && keydown then some 0 else rest
