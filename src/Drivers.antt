-- ===== src/Drivers.antt =====
-- Kernel/src/drivers: the timer, the keyboard and the disk controller.
pub mod Pit
pub mod Keyboard
pub mod Ahci
