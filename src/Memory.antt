-- ===== src/Memory.antt =====
-- The physical memory and the heap of kernel/memory.c, and the address arithmetic under them.
pub mod Align
pub mod Bitmap
pub mod Boot
pub mod Pmm
pub mod Kheap
pub mod Slab
pub mod Paging
pub mod User
pub mod Ring3
mod Tests
