-- ===== src/Kernels.antt =====
-- Guest programs of ysyx-workbench/am-kernels/kernels.
pub mod ThreadOs
pub mod YieldOs
