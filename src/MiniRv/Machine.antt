-- ===== src/MiniRv/Machine.antt =====
-- The state of the minirv emulator: the globals Register, Memory, ROM and PC of
-- ysyx-workbench/am-kernels/tests/self/C_mini/C_minirv/main.c.
use for_ysyx_self_store_by_h.Base.{ℕ, ◌^◌}

-- MEM_SIZE, 1 MB.
abbrev pub mem_size : ℕ
mem_size = 2 ^ 20

-- Each array is a function from its index. Register has 32 entries, and the index always comes from
-- a 5-bit field; every access to Memory and ROM is checked against mem_size.
pub record State : Type 0 where
  pub regs : ℕ → ℕ
  pub memory : ℕ → ℕ
  pub rom : ℕ → ℕ
  pub pc : ℕ

-- What the emulator prints as it stops.
pub data Message : Type 0 where
  hit_good_trap hit_bad_trap ecall_called : Message
  unknown_instruction : (opcode pc : ℕ) → Message
  pc_out_of_bounds : Message

-- How a cycle ends: the emulator goes on, calls `exit`, or accesses an array out of range, which C
-- leaves undefined.
pub data Outcome : Type 0 where
  running : State → Outcome
  exited : (code : ℕ) → Message → Outcome
  fault : Outcome
