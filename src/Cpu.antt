-- ===== src/Cpu.antt =====
-- Kernel/src/cpu: interrupts, their controller, the descriptor tables, the firmware's tables and the
-- PCI devices.
pub mod Port
pub mod Pic
pub mod Idt
pub mod Isr
pub mod Gdt
pub mod Acpi
pub mod Pci
