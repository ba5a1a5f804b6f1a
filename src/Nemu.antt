-- ===== src/Nemu.antt =====
-- NEMU, ysyx-workbench/nemu, built for the riscv32 ISA. `Pattern` is the instruction pattern
-- matcher of its decoders.
pub mod Pattern
pub mod Result
pub mod Memory
pub mod State
pub mod Riscv32
pub mod Cpu
pub mod Keyboard
pub mod Sdb
pub mod Devices
pub mod Difftest
pub mod Monitor
pub mod Isa
pub mod X86
pub mod Mips32
pub mod Loongarch32r
