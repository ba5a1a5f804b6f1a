-- ===== src/MiniRv/Program.antt =====
-- Whole runs of the minirv emulator: the loop of main against runs of the instruction set, the
-- ebreak that main patches into ROM, and the check on PC.
pub mod Runs
pub mod Halt
pub mod Memory
