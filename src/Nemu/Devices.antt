-- ===== src/Nemu/Devices.antt =====
-- The devices of NEMU, ysyx-workbench/nemu/src/device: the state that they share, with a module for
-- each device, one for their registration in init_device, and one for device_update.
pub mod Clock
pub mod World
pub mod Serial
pub mod Rtc
pub mod Alarm
pub mod Card
pub mod Board
pub mod Update
pub mod Loop
mod Examples
