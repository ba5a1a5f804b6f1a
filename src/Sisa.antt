-- ===== src/Sisa.antt =====
-- The sISA emulator, ysyx-workbench/am-kernels/tests/self/C_mini/C_sISA/main.c: an 8-bit machine
-- with four registers and sixteen bytes, and the program in it that adds up 1 to n.
-- `Machine` has inst_cycle and main; `Sum` proves what the program prints.
pub mod Machine
pub mod Bounds
pub mod Sum
mod Examples
