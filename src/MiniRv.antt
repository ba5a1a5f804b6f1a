-- ===== src/MiniRv.antt =====
-- The minirv emulator, ysyx-workbench/am-kernels/tests/self/C_mini/C_minirv/main.c.
-- `Machine` has the state and `Exec` the instruction cycle, one definition for each case of its
-- switch; `Boot` has `main`. `Spec` describes the instruction set independently of the emulator,
-- `Refine` relates the two, `Range` has the invariant.
pub mod Machine
pub mod Exec
pub mod Spec
pub mod Refine
pub mod Range
pub mod Boot
pub mod Program
mod Examples
