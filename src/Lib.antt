-- ===== src/Lib.antt =====
-- A model of C parts of the kernel: its physical memory, its scheduler, its terminal, and parts of its
-- descriptor tables, drivers and file system, and the allocator and the output of user programs.
--
--   kernel/memory.c, kernel/include/memory.h, kernel/include/misc.h   Memory
--   kernel/scheduler/scheduler.c, kernel/timer.c                      Scheduler
--   kernel/tty.c                                                      Tty
--   kernel/gdt/gdt.c, kernel/idt/idt.c                                Descriptors
--   kernel/pic.c, kernel/filesystem/disk.c, drivers/keyboard.c        Drivers
--   kernel/include/misc.h (debug_ functions)                          Drivers.Debug
--   kernel/filesystem/fs.c, kernel/include/misc.h                     Filesystem
--   kernel/graphics/framebuffer.c, kernel/graphics/font.c             Graphics
--   kernel/syscall/read.c, write.c and ioctl.c                        Syscalls
--   kernel/syscall/mmap.c, munmap.c                                   Memory.User
--   userspace/stdlib/malloc.c, free.c                                 Userspace.Malloc
--   userspace/libc/stdio/printf.c                                     Userspace.Printf
--
-- Memory.Align has the address arithmetic, Memory.Bitmap the bit macros over bytes, and Memory.Pmm
-- the page allocator above them: `pmm_alloc` and `pmm_free` over the bytes of the bitmap. Memory.Boot
-- is `populate_bitmap`, which fills that bitmap from the boot loader's memory map. Memory.Kheap has
-- the choices of the kernel heap.
--
-- Scheduler keeps a store of tasks, known by their addresses and linked through `next` into the run
-- queue, a ring, and into the queue of dead tasks. Scheduler.Calls has the calls that start, stop and
-- wake tasks; the timer calls `scheduler_tick`, the terminal calls `wake_stdin_task`, and the reaper
-- gives back what a dead task held. A handler that ends in `restore_task_context` returns `switched`.
--
-- Tty is the terminal device: what is drawn is a list of calls of `put_char`.
--
-- Descriptors has the tables that `gdt_init` and `idt_init` fill. Drivers gives a driver as the list of
-- its port operations in order, Drivers.Keyboard what a scancode leads to, and Drivers.Identify how
-- `init_disk` waits for the answers of the disk. Graphics has `put_pixel`
-- and `put_char`, Graphics.Video the mapping of the frame buffer, and Syscalls
-- the system calls on open files, over the function pointers of their devices.
--
-- Filesystem has `alloc_inode_num` on its bitmap and `tar_parse_octal`. Filesystem.Blocks is the rest of
-- what fs.c keeps on the disk: `disk_read` and `disk_write` are arguments there, and IsDisk in
-- Filesystem.Blocks.Store is what it needs of them: a transfer of fewer than 256 sectors that lies on the
-- disk, whose sectors have numbers below 2^28, moves them in order. Of any other transfer nothing is assumed,
-- since kernel/filesystem/disk.c sends 28 bits of the number of a sector and 8 of their count. A disk of bytes
-- has it. The 4096 and 8 rounds of its loops are those of the code. Filesystem.Vfs is the tree of vnodes.
-- Memory.Ring3 is `mmap_ring3`, over the memory of Memory.Paging; the bytes of the program are an
-- argument.
--
-- Numbers are natural numbers, and every C type's width is written out: `u8`, `u32` and `u64` reduce,
-- `sub32` and `sub64` subtract with wrap-around. An array is a function of the index.
--
-- A loop over a linked structure runs on fuel, and `none` is a loop that is still running. The theorems
-- about such a function say which fuel is enough, the length of the queue, or that no fuel is. The loops
-- over the memory map take `mmap_length` as fuel, since each entry has four bytes or more. The loop that
-- prints a number has eleven rounds, one more than a 32-bit number has digits.
--
-- What `kmalloc`, `open_file` and `mmap_ring3` return for a new task is an argument of `create_task`, and
-- the memory map and the addresses of the program image are arguments too. Not modelled: the assembly
-- entry points, `init_memory` and `unmmap_ring3`, the dispatch in
-- `syscall_handler` and `exception_handler`, what `init_fs` computes of the archive and does not use, and
-- `fgets`.
--
-- Memory.Slab is `kmalloc` and `kfree`: the headers of the slabs are a store by address, the words of
-- the free lists another one, and the pages come from an `mmap` that is an argument. The invariant of a
-- cache, IsCache, stands in Memory.Slab.Cache. Memory.Paging is that `mmap` and `unmmap`: physical memory
-- is a store of words, `tmp_map_addr` is read through its entry in that memory, as the processor
-- does, and the walk of the tables in Memory.Paging.Frames says what is mapped. The loops of
-- Memory.User run over all entries of all tables; the state after a return is left alone. The loops of
-- `malloc` and `free` run on fuel; running out of it is `none`, and each result says what fuel it
-- needs. The system calls behind them are arguments.
pub mod Base
pub mod Memory
pub mod Scheduler
pub mod Tty
pub mod Userspace
pub mod Descriptors
pub mod Drivers
pub mod Filesystem
pub mod Graphics
pub mod Syscalls
