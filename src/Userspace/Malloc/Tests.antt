-- ===== src/Userspace/Malloc/Tests.antt =====
-- Runs of `malloc` and `free` of user programs.
use kernel_study.Base.{
  ℕ, ◌+◌, ◌%◌, ◌^◌, ◌<◌, ◌≤◌, ◌≡◌, ◌≢◌, refl, false, none, some, [], ◌==◌, if◌then◌else◌, arith,
}
use kernel_study.Userspace.Malloc.{
  Ptr, PageBlock, MemBlock, Pool, malloc, search_blocks, split_block, take_block, sum_free, free,
}
use kernel_study.Userspace.Malloc.Fresh.{free-malloc}
use kernel_study.Userspace.Malloc.Split.{search_blocks-split}
use kernel_study.Userspace.Malloc.Cycle.{after, free-search_blocks_cycle}

abbrev map_at_0x3000 : (size : ℕ) → ℕ → Ptr × ℕ
map_at_0x3000 size s = (0x3000, s + 1)

abbrev unmap_one : Ptr → (size : ℕ) → ℕ → ℕ
unmap_one p size s = s + 10

abbrev page_of : (free_blocks : Ptr) → PageBlock
page_of free_blocks = record {
  og_size = 4096;
  free_size = 2000;
  next_free_addr = 0x3800;
  free_blocks = free_blocks;
  next_page_block = 0;
  prev_page_block = 0;
}

abbrev block_of : (size : ℕ) → (next : Ptr) → MemBlock
block_of size next = record {
  size = size;
  parent_page = 0x3000;
  next_mem_block = next;
  is_allocated = false;
}

abbrev empty_pool : Pool ℕ
empty_pool = record { pages = λ p. page_of 0; blocks = λ p. block_of 0 0; mem_pool = 0; source = 0 }

free-malloc_example :
    (h' h'' : Pool ℕ) × (malloc map_at_0x3000 unmap_one 0 100 empty_pool ≡ some (0x3028, h'))
    × (100 ≤ 104)
    × (0x3028 + 104 ≤ 0x4000)
    × (free map_at_0x3000 unmap_one 1 0x3028 h' ≡ some h'')
    × (h''.mem_pool ≡ 0)
    × (h''.source ≡ 11)
free-malloc_example =
    free-malloc map_at_0x3000 unmap_one 100 empty_pool refl (omega arith) (omega arith) 0

-- One free block of 24 bytes at 0x3100.
abbrev pool_24 : Pool ℕ
pool_24 = record {
  pages = λ p. page_of 0x3100;
  blocks = λ p. block_of 24 0;
  mem_pool = 0x3000;
  source = 0;
}

-- A request for 16 bytes leaves a block of 2^32 - 8.
search_blocks-split_example :
    (search_blocks 3 16 0x3100 0 pool_24 ≡ some (some (0x3110, split_block 16 0x3100 0 pool_24)))
    × (((split_block 16 0x3100 0 pool_24).pages 0x3000).free_blocks ≡ 0x3120)
    × (((split_block 16 0x3100 0 pool_24).blocks 0x3120).size ≡ 0xFFFFFFF8)
search_blocks-split_example =
    search_blocks-split pool_24 16 0x3100 (omega arith) (ground arith) (omega arith) (omega arith)
      [] 2 refl refl refl (omega arith)

-- Free blocks of 16 bytes at 0x3100 and of 8 at 0x3200.
abbrev pool_2 : Pool ℕ
pool_2 = record {
  pages = λ p. page_of 0x3100;
  blocks = λ p. if p == 0x3100 then block_of 16 0x3200 else block_of 8 0;
  mem_pool = 0x3000;
  source = 0;
}

abbrev at_a : Ptr
at_a = 0x3100

abbrev at_b : Ptr
at_b = 0x3200

some_a : at_a ≢ 0
some_a = ground arith

some_b : at_b ≢ 0
some_b = ground arith

not_b : at_a ≢ at_b
not_b = ground arith

below : 0x3100 + 16 < 2 ^ 32
below = omega arith

not_behind : (0x3200 + 8 + 16) % 2 ^ 32 ≢ 0x3100
not_behind = ground arith

not_all_free : ((2000 + 16 + 16 + 24) % 2 ^ 32 + (8 + 16) % 2 ^ 32) % 2 ^ 32 ≢ 4096
not_all_free = ground arith

abbrev circle : Pool ℕ
circle =
    after map_at_0x3000 unmap_one pool_2 0x3000 0x3100 0x3200 some_a some_b not_b below refl refl
      refl refl refl not_behind not_all_free

free-search_blocks_cycle_example :
    (search_blocks 5 16 0x3100 0 pool_2 ≡ some (some (0x3110, take_block 0x3100 0 pool_2)))
    × (free map_at_0x3000 unmap_one 6 0x3110 (take_block 0x3100 0 pool_2) ≡ some circle)
    × ((n total : ℕ) → sum_free n (circle.pages 0x3000).free_blocks total circle ≡ none)
free-search_blocks_cycle_example =
    free-search_blocks_cycle map_at_0x3000 unmap_one pool_2 0x3000 0x3100 0x3200 some_a some_b not_b
      below refl refl refl refl refl not_behind not_all_free 4 16 refl
