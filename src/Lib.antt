-- ===== src/Lib.antt =====
-- Verification library of Husky OS, a hobby kernel for x86-64 (Kernel/src and Kernel/include).
--
-- The kernel is one address space. At boot it reads the boot loader's memory map into the page
-- frame allocator, builds page tables out of its frames, fills the descriptor tables, starts the
-- timer and the keyboard, and mounts a ram disk whose files are reached through the virtual file
-- system.
--
-- Base: numbers, Boolean tests, lists, machine words, and `&` and `|` as arithmetic.
--
-- Memory: Memory/Bitmap is Kernel/src/memory/bitmap.cpp, Memory/Frames is pageFrameAllocator.cpp
-- and memory.cpp, Memory/Paging is paging.cpp, PageMapIndexer.cpp and PageTableManager.cpp. The
-- state of the allocator is a record of the globals with the bitmap; the page tables are memory
-- that is read by 64-bit words, and map_memory draws its tables from the allocator. Memory/Heap is
-- heap.cpp: headers at addresses, and, for the proofs, the list of blocks that they stand for.
--
-- Klib: Klib/Block and Klib/Text are Kernel/src/klib/string.cpp, the first over a memory of bytes,
-- the second over the bytes of a string before its NUL; Klib/Numbers is Utils.cpp and Math.cpp,
-- with the processor's floating point arithmetic as a parameter; Klib/Printf is vkprint of
-- hkStdio.cpp: a step on a record of its variables for each character of the format, over the
-- words of the call; Klib/Linked is list.cpp over a memory of nodes. Fs/Path has a list of values
-- for the nodes that Klib/Linked links.
--
-- Fs: Fs/Path is canonicalize_path of Kernel/src/fs/vfs.cpp, Fs/Vfs the rest of that file with the
-- callbacks of a file system, and what realloc makes of an empty path, as parameters, and Fs/Ext2
-- is ext2_initrd.cpp over the bytes of the image.
--
-- Cpu: Cpu/Port stands for the ports, whose behaviour is a parameter; Cpu/Pic is
-- Kernel/src/cpu/pic/pic.cpp, with what the manual of the 8259A says as a hypothesis, Cpu/Idt is
-- idt.cpp with the gates of isr.cpp, Cpu/Isr the dispatch of isr.cpp with the handlers as
-- parameters, and Cpu/Gdt is gdt.cpp.
--
-- Drivers: Drivers/Pit is Kernel/src/drivers/pit.cpp and Drivers/Keyboard is keyboard.cpp. Clock
-- is Kernel/src/time/time.cpp.
--
-- Terminal: Terminal/Screen is Kernel/src/terminal/terminal.cpp, where drawing a glyph is ssfn's
-- and a parameter; Terminal/Serial is serial.cpp over the ports, and Terminal/Console the rest of
-- hkStdio.cpp and debug, which put what vkprint prints to the screen or the serial line.
--
-- Klib/Vector is vector.h, Cpu/Pci is Kernel/src/cpu/pci/pci.cpp and Cpu/Acpi is acpi.cpp: the
-- firmware's tables and the configuration space are memory that is read by bytes. Drivers/Ahci is
-- Kernel/src/drivers/ahci.cpp; what stands behind the registers of the controller is a parameter.
--
-- A function of the kernel has its name in lower case with underscores (RequestPage is
-- request_page, intr_common_handler_c stays), and so have its fields. An address or a word is a
-- number, and arithmetic that can wrap is written with its remainder. Where C++ leaves a result to
-- what lies behind an array, that is part of the state (the bitmap) or a parameter (the key
-- table).
--
-- Bounds and fuel. Loops over a count, a list or a string are structural. The search for a run of
-- frames gets a round for each frame and one more; the loops over strtok_r, one for each byte and
-- one more; the loops over a directory, one for each byte of the directory and one more; the
-- digits of a 32-bit number, 32 rounds. The theorems say that these suffice: a search that runs
-- out of fuel is a result of its own and is excluded, or the result is equal to one that is
-- defined without fuel. The wait of Sleep_pit takes its fuel as an argument, and the theorem gives
-- enough of it; the wait for the UART takes fuel for each character, and the theorem names how
-- much is enough; the waiting loops of the keyboard's and the disk controller take fuel, and
-- nothing is claimed of them. The loop over the MADT takes a round for each byte and one more,
-- malloc's search a round for each segment. The int counters of the allocator do not overflow for
-- fewer than 2 ^ 31 frames; their products with the size of a page are those of 32 bits. The
-- buffers of a number that is printed, and the array of the disk driver's ports, have their sizes,
-- and an overrun is a result of its own.
--
-- Boot is Kernel/src/stivale2_boot.cpp and the part of kernel.cpp that fills the page tables, with
-- Memory/Paging and Memory/Frames; its loops over addresses take fuel, a round for each page and
-- one more.
--
-- Boot/Disks is the loop of kernel.cpp that starts the disk drivers.
--
-- Not modelled: the rest of KernelStart, which calls the parts in order, and the fixed texts of
-- panic. Memory does not run out where the file system and the lists allocate. Log lines and the
-- drawing of glyphs have no model, assembly is a parameter, and ssfn.h and stivale2.h are other
-- projects'.
mod Base
pub mod Memory
pub mod Klib
pub mod Fs
pub mod Cpu
pub mod Drivers
pub mod Clock
pub mod Terminal
pub mod Boot
