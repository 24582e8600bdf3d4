-- ===== src/Memory/User/Tests.antt =====
-- A task with page directory in page 4 and a page table in page 5, of 64.
use kernel_study.Base.{
  ℕ, zero, suc, ◌+◌, ◌*◌, ◌/◌, ◌<◌, ◌≡◌, ◌≢◌, refl, true, ◌==◌, if◌then◌else◌, inl, inr, Bool-cases,
  arith,
}
use kernel_study.Memory.Align.{pde_index}
use kernel_study.Memory.Bitmap.{bit_get}
use kernel_study.Memory.Paging.{Paging, tmp_slot}
use kernel_study.Memory.Paging.Frames.{IsPaging}
use kernel_study.Memory.User.{user_page}
use kernel_study.Memory.User.Round.{user_page_maps}

-- The kernel has one page table, in page 2. The task uses the pages 1 and 2 of its address space.
abbrev task_memory : Paging
task_memory = record {
  pmm = record { bitmap = λ i. if i == 0 then 0x3F else 0; bitmap_size = 64 };
  phys = λ a.
      if a == 0x4000
      then 0x5007
      else if a == 0x5004
      then 0x1007
      else if a == 0x5008
      then 0x1007
      else 0;
  kernel_page_directory = λ d. if d == 768 then 0x2003 else 0;
  tmp_map_addr = 0xC03FF000;
  kheap_pages = λ i. 0;
}

used_by_kernel :
    (d : ℕ)
    → task_memory.kernel_page_directory d ≢ 0
    → bit_get task_memory.pmm.bitmap (task_memory.kernel_page_directory d / 4096) ≡ 1
unfolding bit_get
used_by_kernel d ne = elim (Bool-cases (d == 768)) [
  | inl a ↦ rw a refl
  | inr a ↦ absurd (ne (rw a refl))
]

task_memory-IsPaging : IsPaging task_memory
unfolding pde_index
task_memory-IsPaging = record {
  pmm = record { bytes = λ i. ground arith; small = omega arith };
  words = λ d. ground arith;
  used = λ d lt ne. used_by_kernel d ne;
  apart = λ d e ld le nd ne same. ground (arith, nd, ne, same);
  tmp_word = omega arith;
  tmp_table = λ e. omega (arith, e);
}

bit_6 : (k : ℕ) → k < 1 → bit_get task_memory.pmm.bitmap (6 + k) ≡ 0
unfolding bit_get
bit_6 zero lt = refl
bit_6 (suc k) lt = omega (arith, lt)

used_5 : bit_get task_memory.pmm.bitmap (0x5007 / 4096) ≡ 1
unfolding bit_get
used_5 = refl

user_page_maps_example :
    let (mapped, s') = user_page 0x4000 0 3 task_memory in
    (mapped ≡ true)
    × IsPaging s'
    × ((p : ℕ) × (bit_get task_memory.pmm.bitmap p ≡ 0)
        × (s'.phys 0x500C ≡ p * 4096 + 7)
        × ((i : ℕ) → i < 1024 → s'.phys (p * 4096 + 4 * i) ≡ 0)
        × ((a : ℕ)
            → a ≢ tmp_slot task_memory
            → a / 4096 ≢ p
            → a ≢ 0x500C
            → s'.phys a ≡ task_memory.phys a))
user_page_maps_example =
    user_page_maps task_memory task_memory-IsPaging 0x4000 0 3 (omega arith) (omega arith)
      (omega arith) (λ d lt ne. ground arith) 0x5007 (omega arith) refl (ground arith)
      (λ d lt ne. ground arith) used_5 refl 6 (record { inside = omega arith; free = bit_6 })
