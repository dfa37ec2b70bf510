-- ===== src/Cpu/Gdt/Examples.antt =====
-- The descriptors at an address in the higher half.
