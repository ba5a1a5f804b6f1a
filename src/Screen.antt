-- ===== src/Screen.antt =====
-- The minirv emulator with a screen, ysyx-workbench/am-kernels/tests/self/C_minirv_screen/main.c.
pub mod Machine
pub mod Boot
pub mod Agrees
pub mod Simulates
pub mod Loop
pub mod Counter
mod Examples
