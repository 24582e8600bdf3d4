-- ===== src/Memory/Ring3/Built.antt =====
-- What `mmap_ring3` builds.
use kernel_study.Base.{
  ℕ, ◌+◌, ◌*◌, ◌/◌, ◌%◌, ◌^◌, ◌<◌, ◌≤◌, ◌≡◌, ◌≢◌, refl, Bool, true, false, ◌||◌, ◌==◌, some, leb,
  ltb, if◌then◌else◌, bit_and, u16, sub32, arith, ap, ◌∙◌, sym,
}
use kernel_study.Memory.Align.{page_present, pde_index, page_entry}
use kernel_study.Memory.Bitmap.{bit_get}
use kernel_study.Memory.Pmm.Alloc.{FreeAt}
use kernel_study.Memory.Paging.{Paging, tmp_slot, alloc_zeroed}
use kernel_study.Memory.Paging.Tmp.{with_phys}
use kernel_study.Memory.Paging.Frames.{IsPaging}
use kernel_study.Memory.Paging.Alloc.{page, page_facts, not_slot, taken-IsPaging}
use kernel_study.Memory.Ring3.{mmap_ring3, user_entry, user_table, user_directory, with_code}
use kernel_study.Memory.Ring3.Bytes.{byte_of}
use kernel_study.Memory.Ring3.Steps.{
  took, Filled, WithCode, zeroed_Filled, user_table-Filled, user_directory-Filled,
  code_page-WithCode,
}

-- The four pages of a new task.
pub record Pages : Type 0 where
  pub code : ℕ
  pub stack : ℕ
  pub table : ℕ
  pub directory : ℕ

abbrev pub one_of : Pages → ℕ → Bool
one_of q p = p == q.code || (p == q.stack || (p == q.table || p == q.directory))

-- `s'` is `s` with a new address space in the pages `q`.
pub record UserSpace (s : Paging) (user_code : ℕ → ℕ) (limit : ℕ) (q : Pages) (s' : Paging)
    : Type 0 where
  pub code_apart : (q.code ≢ q.stack) × (q.code ≢ q.table) × (q.code ≢ q.directory)
  pub apart : (q.stack ≢ q.table) × (q.stack ≢ q.directory) × (q.table ≢ q.directory)
  pub were_free : (p : ℕ) → one_of q p ≡ true → bit_get s.pmm.bitmap p ≡ 0
  pub bits : (p : ℕ) → bit_get s'.pmm.bitmap p ≡ (if one_of q p then 1 else bit_get s.pmm.bitmap p)
  pub directory :
      (i : ℕ)
      → i < 1024
      → s'.phys (q.directory * 4096 + 4 * i) ≡ (
          if leb 768 i then s.kernel_page_directory i else if i == 0 then q.table * 4096 + 7 else 0)
  pub table :
      (i : ℕ)
      → i < 1024
      → s'.phys (q.table * 4096 + 4 * i)
        ≡ (if i == 1 then q.code * 4096 + 7 else if i == 2 then q.stack * 4096 + 7 else 0)
  pub stack : (i : ℕ) → i < 1024 → s'.phys (q.stack * 4096 + 4 * i) ≡ 0
  pub code :
      (k : ℕ) → k < 4096 → byte_of s'.phys q.code k ≡ (if ltb k limit then user_code k % 256 else 0)
  pub others : (a : ℕ) → a ≢ tmp_slot s → one_of q (a / 4096) ≡ false → s'.phys a ≡ s.phys a
  pub paging : IsPaging s'

took-IsPaging :
    (s : Paging) (v : IsPaging s) (t : ℕ)
    → FreeAt s.pmm 1 t
    → (f : ℕ → ℕ) → IsPaging (with_phys f (took s))
took-IsPaging s v t free f =
    let w = taken-IsPaging s v t free in
    record {
      pmm = w.pmm;
      words = w.words;
      used = w.used;
      apart = w.apart;
      tmp_word = w.tmp_word;
      tmp_table = w.tmp_table;
    }

user_entry_lem : (p : ℕ) → p < 2 ^ 20 → user_entry (p * 4096) ≡ p * 4096 + 7
user_entry_lem p lt = page_entry (p * 4096) 7 (omega (arith, lt)) (omega arith) ∙ omega arith

module _ (s : Paging) (v : IsPaging s) (aligned : s.tmp_map_addr % 4096 ≡ 0)
    (present : bit_and (s.kernel_page_directory (pde_index s.tmp_map_addr)) page_present ≡ 1)
    (user_code : ℕ → ℕ) (mod_start mod_end : ℕ) (fits : u16 (sub32 mod_end mod_start) ≤ 4096)
    (t1 t2 t3 t4 : ℕ) (free1 : FreeAt s.pmm 1 t1) (free2 : FreeAt (took s).pmm 1 t2)
    (free3 : FreeAt (took (took s)).pmm 1 t3) (free4 : FreeAt (took (took (took s))).pmm 1 t4) where
  abbrev limit : ℕ
  limit = u16 (sub32 mod_end mod_start)

  code : WithCode s v t1 free1 user_code limit
  code = code_page-WithCode s v t1 free1 user_code limit fits aligned present

  abbrev s1 : Paging
  s1 = with_phys code.words (took s)

  v1 : IsPaging s1
  v1 = took-IsPaging s v t1 free1 code.words

  stack : Filled s1 (page s1 v1 t2 free2) (λ i. 0) (alloc_zeroed s1)
  stack = zeroed_Filled s1 v1 t2 free2

  abbrev s2 : Paging
  s2 = with_phys stack.words (took s1)

  v2 : IsPaging s2
  v2 = took-IsPaging s1 v1 t2 free2 stack.words

  abbrev p1 : ℕ
  p1 = page s v t1 free1

  abbrev p2 : ℕ
  p2 = page s1 v1 t2 free2

  abbrev p3 : ℕ
  p3 = page s2 v2 t3 free3

  table :
      Filled s2 p3
        (λ i.
          if i == 1 then user_entry (p1 * 4096) else if i == 2 then user_entry (p2 * 4096) else 0)
        (user_table (p1 * 4096) (p2 * 4096) s2)
  table = user_table-Filled s2 v2 t3 free3 (p1 * 4096) (p2 * 4096)

  abbrev s3 : Paging
  s3 = with_phys table.words (took s2)

  v3 : IsPaging s3
  v3 = took-IsPaging s2 v2 t3 free3 table.words

  abbrev p4 : ℕ
  p4 = page s3 v3 t4 free4

  directory :
      Filled s3 p4
        (λ i.
          if leb 768 i
          then s.kernel_page_directory i
          else if i == 0
          then user_entry (p3 * 4096)
          else 0)
        (user_directory (p3 * 4096) s3)
  directory = user_directory-Filled s3 v3 t4 free4 (p3 * 4096)

  abbrev s4 : Paging
  s4 = with_phys directory.words (took s3)

  abbrev new_pages : Pages
  new_pages = record { code = p1; stack = p2; table = p3; directory = p4 }

  mmap_ring3-s4 : mmap_ring3 user_code mod_start mod_end s ≡ some (p4 * 4096, s4)
  unfolding mmap_ring3 with_code
  mmap_ring3-s4 = rw (code.result, stack.result, table.result, directory.result) refl

  -- Each page is free until it is taken.
  abbrev bit : Paging → ℕ → ℕ
  bit x j = bit_get x.pmm.bitmap j

  bits_lem :
      ((j : ℕ) → bit s1 j ≡ (if j == p1 then 1 else bit s j))
      × ((j : ℕ) → bit s2 j ≡ (if j == p2 then 1 else bit s1 j))
      × ((j : ℕ) → bit s3 j ≡ (if j == p3 then 1 else bit s2 j))
      × ((j : ℕ) → bit s4 j ≡ (if j == p4 then 1 else bit s3 j))
  bits_lem = (
    (page_facts s v t1 free1).3,
    (page_facts s1 v1 t2 free2).3,
    (page_facts s2 v2 t3 free3).3,
    (page_facts s3 v3 t4 free4).3,
  )

  free_lem : (bit s p1 ≡ 0) × (bit s1 p2 ≡ 0) × (bit s2 p3 ≡ 0) × (bit s3 p4 ≡ 0)
  free_lem = (
    (page_facts s v t1 free1).2,
    (page_facts s1 v1 t2 free2).2,
    (page_facts s2 v2 t3 free3).2,
    (page_facts s3 v3 t4 free4).2,
  )

  small : (p1 < 2 ^ 20) × (p2 < 2 ^ 20) × (p3 < 2 ^ 20)
  small =
      ((page_facts s v t1 free1).1, (page_facts s1 v1 t2 free2).1, (page_facts s2 v2 t3 free3).1)

  slots :
      (tmp_slot s / 4096 ≢ p1)
      × (tmp_slot s / 4096 ≢ p2)
      × (tmp_slot s / 4096 ≢ p3)
      × (tmp_slot s / 4096 ≢ p4)
  slots = (
    not_slot s v t1 free1,
    not_slot s1 v1 t2 free2,
    not_slot s2 v2 t3 free3,
    not_slot s3 v3 t4 free4,
  )

  -- A page in use and a free one are different.
  other_page : (x : Paging) (a b : ℕ) → bit x a ≡ 1 → bit x b ≡ 0 → a ≢ b
  other_page x a b used free e = omega (arith, used, free, ap (bit x) e)

  code_used : (bit s1 p1 ≡ 1) × (bit s2 p1 ≡ 1) × (bit s3 p1 ≡ 1)
  code_used =
      let one : bit s1 p1 ≡ 1 = ground (arith, bits_lem.0 p1) in
      let two : bit s2 p1 ≡ 1 = ground (arith, bits_lem.1 p1, one) in
      (one, two, ground (arith, bits_lem.2 p1, two))

  stack_used : (bit s2 p2 ≡ 1) × (bit s3 p2 ≡ 1)
  stack_used =
      let two : bit s2 p2 ≡ 1 = ground (arith, bits_lem.1 p2) in
      (two, ground (arith, bits_lem.2 p2, two))

  table_used : bit s3 p3 ≡ 1
  table_used = ground (arith, bits_lem.2 p3)

  code_distinct : (p1 ≢ p2) × (p1 ≢ p3) × (p1 ≢ p4)
  code_distinct = (
    other_page s1 p1 p2 code_used.0 free_lem.1,
    other_page s2 p1 p3 code_used.1 free_lem.2,
    other_page s3 p1 p4 code_used.2 free_lem.3,
  )

  distinct : (p2 ≢ p3) × (p2 ≢ p4) × (p3 ≢ p4)
  distinct = (
    other_page s2 p2 p3 stack_used.0 free_lem.2,
    other_page s3 p2 p4 stack_used.1 free_lem.3,
    other_page s3 p3 p4 table_used free_lem.3,
  )

  were_free_lem : (bit s p2 ≡ 0) × (bit s p3 ≡ 0) × (bit s p4 ≡ 0)
  were_free_lem = (
    ground (arith, bits_lem.0 p2, free_lem.1),
    ground (arith, bits_lem.0 p3, bits_lem.1 p3, free_lem.2),
    ground (arith, bits_lem.0 p4, bits_lem.1 p4, bits_lem.2 p4, free_lem.3),
  )

  -- A word of a page that later pages leave alone.
  from_table : (a : ℕ) → a ≢ tmp_slot s → a / 4096 ≢ p4 → s4.phys a ≡ table.words a
  from_table a slot ne = directory.others a slot ne

  from_stack : (a : ℕ) → a ≢ tmp_slot s → a / 4096 ≢ p4 → a / 4096 ≢ p3 → s4.phys a ≡ stack.words a
  from_stack a slot ne ne' = from_table a slot ne ∙ table.others a slot ne'

  from_code :
      (a : ℕ)
      → a ≢ tmp_slot s
      → a / 4096 ≢ p4
      → a / 4096 ≢ p3
      → a / 4096 ≢ p2
      → s4.phys a ≡ code.words a
  from_code a slot ne ne' ne'' = from_stack a slot ne ne' ∙ stack.others a slot ne''

  in_page : (p k : ℕ) → tmp_slot s / 4096 ≢ p → k < 4096 → p * 4096 + k ≢ tmp_slot s
  in_page p k ne lt e = ne (omega (arith, sym e, lt))

  -- In a state that IsPaging describes, where `tmp_map_addr` is page-aligned and the page table behind it is
  -- present, where the length to copy (`mod_end - mod_start` in 16 bits) is at most 4096 and a page is free
  -- for each of the four allocations in turn, `mmap_ring3` ends and returns the address of the directory of a
  -- new address space. Its code page, stack page, page table and directory are four different pages that
  -- were free; they are used afterwards, and no other bit of the bitmap changes. The directory has the table,
  -- present, writable and for the user, at entry 0, the entries of the kernel from 768 on and 0 elsewhere; the
  -- table has the code page at 1 and the stack page at 2, with the same flags, and 0 elsewhere. The stack page
  -- is zero, and the code page holds the bytes of the program and zeros behind them. Every word of memory
  -- outside the four pages but the entry behind `tmp_map_addr` is as before, and IsPaging holds again.
  pub mmap_ring3-UserSpace :
      (q : Pages) × (s' : Paging) × (mmap_ring3 user_code mod_start mod_end s
        ≡ some (q.directory * 4096, s'))
      × UserSpace s user_code (u16 (sub32 mod_end mod_start)) q s'
  mmap_ring3-UserSpace = (
    new_pages,
    s4,
    mmap_ring3-s4,
    record {
      code_apart = code_distinct;
      apart = distinct;
      were_free =
          λ p e. ground (arith, e, free_lem.0, were_free_lem.0, were_free_lem.1, were_free_lem.2);
      bits = λ p. ground (arith, bits_lem.0 p, bits_lem.1 p, bits_lem.2 p, bits_lem.3 p);
      directory = λ i lt.
          directory.inside i lt
          ∙ ap (λ (x : ℕ). if leb 768 i then s.kernel_page_directory i else if i == 0 then x else 0)
              (user_entry_lem p3 small.2);
      table = λ i lt.
          from_table (p3 * 4096 + 4 * i) (in_page p3 (4 * i) slots.2 (omega (arith, lt)))
            (λ e. distinct.2 (omega (arith, e, lt)))
          ∙ table.inside i lt
          ∙ rw (user_entry_lem p1 small.0, user_entry_lem p2 small.1) refl;
      stack = λ i lt.
          from_stack (p2 * 4096 + 4 * i) (in_page p2 (4 * i) slots.1 (omega (arith, lt)))
            (λ e. distinct.1 (omega (arith, e, lt))) (λ e. distinct.0 (omega (arith, e, lt)))
          ∙ stack.inside i lt;
      code = λ k lt.
          ap (λ (w : ℕ). w / 256 ^ (k % 4) % 256)
            (from_code (p1 * 4096 + k / 4 * 4) (in_page p1 (k / 4 * 4) slots.0 (omega (arith, lt)))
              (λ e. code_distinct.2 (omega (arith, e, lt)))
              (λ e. code_distinct.1 (omega (arith, e, lt)))
              (λ e. code_distinct.0 (omega (arith, e, lt))))
          ∙ code.bytes k lt;
      others = λ a slot out.
          from_code a slot (λ e. ground (arith, e, out)) (λ e. ground (arith, e, out))
            (λ e. ground (arith, e, out))
          ∙ code.others a slot (λ e. ground (arith, e, out));
      paging = took-IsPaging s3 v3 t4 free4 directory.words;
    },
  )
