-- ===== src/Memory.antt =====
-- Kernel/src/memory: the frame bitmap, the frame allocator, the page tables and the heap.
pub mod Bitmap
pub mod Frames
pub mod Paging
pub mod Heap
