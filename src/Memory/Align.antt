-- ===== src/Memory/Align.antt =====
-- The address arithmetic of kernel/include/memory.h and kernel/include/misc.h: alignment to pages,
-- page table entries and the indices of a virtual address.
use kernel_study.Base.{ℕ, ◌+◌, ◌-◌, ◌*◌, ◌/◌, ◌%◌, ◌^◌, ◌<◌, ◌≤◌, bit_and, bit_or, ◌≡◌, arith, u32}
use kernel_study.Base.Bits.{bit_and_fields, bit_and_ones, bit_and-zero, bit_and_low, bit_or_low}

abbrev pub page_size : ℕ
page_size = 4096

abbrev pub page_mask : ℕ
page_mask = 0xFFFFF000

abbrev pub page_present : ℕ
page_present = 0x001

abbrev pub page_writable : ℕ
page_writable = 0x002

abbrev pub page_user : ℕ
page_user = 0x004

-- `align_up_4k`
unfoldable pub align_up_4k : ℕ → ℕ
align_up_4k addr = bit_and (u32 (addr + 0xFFF)) page_mask

-- `align_down_4k`
unfoldable pub align_down_4k : ℕ → ℕ
align_down_4k addr = bit_and addr page_mask

-- `PDE_INDEX(addr)`
unfoldable pub pde_index : ℕ → ℕ
pde_index addr = bit_and (addr / 2 ^ 22) 0x3FF

-- `PTE_INDEX(addr)`
unfoldable pub pte_index : ℕ → ℕ
pte_index addr = bit_and (addr / 2 ^ 12) 0x3FF

-- `pages_required`
unfoldable pub pages_required : ℕ → ℕ
pages_required len = u32 (len + page_size - 1) / page_size

-- `addr & PAGE_MASK` drops the offset within the page.
pub bit_and-page_mask : (a : ℕ) → a < 2 ^ 32 → bit_and a page_mask ≡ a / 4096 * 4096
bit_and-page_mask a h =
    let e : a / 4096 * 2 ^ 12 + a % 4096 ≡ a = omega arith in
    let split = bit_and_fields 12 (a / 4096) (a % 4096) 0xFFFFF 0 (omega arith) (omega arith) in
    let split' = rw (e, bit_and-zero, bit_and_ones 20 (a / 4096) (omega arith)) at split in
    omega (arith, split')

-- `(addr & PAGE_MASK) | flags` keeps the page and the flags apart.
pub page_entry :
    (a flags : ℕ)
    → a < 2 ^ 32
    → flags < 4096
    → bit_or (bit_and a page_mask) flags ≡ a / 4096 * 4096 + flags
page_entry a flags h f = rw (bit_and-page_mask a h) (bit_or_low 12 (a / 4096) flags f)

-- `align_down_4k` is the greatest multiple of the page size that is not above the address.
pub align_down_4k_greatest :
    (a : ℕ)
    → a < 2 ^ 32
    → (align_down_4k a % page_size ≡ 0)
      × (align_down_4k a ≤ a)
      × ((m : ℕ) → m * page_size ≤ a → m * page_size ≤ align_down_4k a)
unfolding align_down_4k
align_down_4k_greatest a h =
    rw (bit_and-page_mask a h) (omega arith, omega arith, λ m p. omega arith)

-- `align_up_4k` is the least multiple of the page size that is not below the address, for an
-- address that is not in the last page of the address space.
pub align_up_4k_least :
    (a : ℕ)
    → a + 0xFFF < 2 ^ 32
    → (align_up_4k a % page_size ≡ 0)
      × (a ≤ align_up_4k a)
      × ((m : ℕ) → a ≤ m * page_size → align_up_4k a ≤ m * page_size)
unfolding align_up_4k
align_up_4k_least a h =
    rw (bit_and-page_mask (u32 (a + 0xFFF)) (omega arith))
      (omega arith, omega arith, λ m p. omega arith)

-- In the last page of the address space `align_up_4k` wraps round to address 0.
pub align_up_4k_wraps : (a : ℕ) → a < 2 ^ 32 → 2 ^ 32 ≤ a + 0xFFF → align_up_4k a ≡ 0
unfolding align_up_4k
align_up_4k_wraps a h w = rw (bit_and-page_mask (u32 (a + 0xFFF)) (omega arith)) (omega arith)

pub page_of_align_down : (a : ℕ) → a < 2 ^ 32 → align_down_4k a ≡ a / page_size * page_size
unfolding align_down_4k
page_of_align_down a h = bit_and-page_mask a h

pub page_of_align_up :
    (a : ℕ) → a + 0xFFF < 2 ^ 32 → align_up_4k a ≡ (a + page_size - 1) / page_size * page_size
unfolding align_up_4k
page_of_align_up a h = rw (bit_and-page_mask (u32 (a + 0xFFF)) (omega arith)) (omega arith)

-- The two indices and the offset make up the virtual address.
pub indices_of_address :
    (a : ℕ)
    → a < 2 ^ 32
    → (pde_index a < 1024)
      × (pte_index a < 1024)
      × (pde_index a * 2 ^ 22 + pte_index a * 2 ^ 12 + a % page_size ≡ a)
unfolding pde_index pte_index
indices_of_address a h =
    rw (bit_and_low 10 (a / 2 ^ 22) (omega arith), bit_and_low 10 (a / 2 ^ 12) (omega arith))
      (omega arith, omega arith, omega arith)

-- `pages_required` is the least number of pages that hold `len` bytes, if `len` is not within a
-- page of the end of the address space.
pub pages_required_least :
    (len : ℕ)
    → len + page_size ≤ 2 ^ 32
    → (len ≤ pages_required len * page_size)
      × ((n : ℕ) → len ≤ n * page_size → pages_required len ≤ n)
unfolding pages_required
pages_required_least len h = (omega arith, λ n p. omega arith)
