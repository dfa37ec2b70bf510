-- ===== src/Terminal.antt =====
-- Kernel/src/terminal: the screen and the serial line, and the output of the kernel to them.
pub mod Screen
pub mod Scroll
pub mod Cursor
pub mod Erase
pub mod Column
pub mod Serial
pub mod Delivery
pub mod Console
pub mod Mode
mod Examples
