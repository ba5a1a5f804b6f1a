-- ===== src/Nemu/Memory.antt =====
-- Guest memory: host accesses (ysyx-workbench/nemu/include/memory/host.h), the physical memory of
-- ysyx-workbench/nemu/src/memory/paddr.c and the virtual addresses of vaddr.c, and the MMIO and
-- port-I/O maps of ysyx-workbench/nemu/src/device/io.
pub mod Examples
pub mod Host
pub mod Map
pub mod Mmio
pub mod PortIo
pub mod Paddr
pub mod Inside
pub mod Access
pub mod Table
pub mod Ports
