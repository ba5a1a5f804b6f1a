-- ===== src/Nemu/Sdb.antt =====
-- The simple debugger of NEMU, ysyx-workbench/nemu/src/monitor/sdb: its number parser, its commands
-- and its main loop (sdb.c), and the pool of watchpoints (watchpoint.c).
pub mod Text
pub mod Commands
pub mod Mainloop
pub mod Watchpoint
pub mod Numbers
mod Examples
pub mod Steps
pub mod Quits
