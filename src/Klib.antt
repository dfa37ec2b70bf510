-- ===== src/Klib.antt =====
-- Kernel/src/klib: the kernel's C library.
pub mod Block
pub mod Text
pub mod Numbers
pub mod Printf
pub mod Vector
pub mod Linked
