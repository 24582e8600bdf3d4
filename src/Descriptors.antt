-- ===== src/Descriptors.antt =====
-- The descriptor tables of the processor: kernel/gdt/gdt.c and `idt_init` of kernel/idt/idt.c. The
-- addresses of the stubs in kernel/idt/idt.s are arguments.
pub mod Decode
mod Tests
use kernel_study.Base.{ℕ, zero, suc, ◌+◌, ◌-◌, ◌*◌, ◌/◌, ◌^◌, bit_and, bit_or, u8, u16, u32, update}

-- `gdt_entry_t`
pub record GdtEntry : Type 0 where
  pub limit_low : ℕ
  pub base_low : ℕ
  pub base_middle : ℕ
  pub access : ℕ
  pub granularity : ℕ
  pub base_high : ℕ

-- `gdt_set_gate`, on the table `gdt_entries`.
unfoldable pub gdt_set_gate : (num base limit access gran : ℕ) → (ℕ → GdtEntry) → ℕ → GdtEntry
gdt_set_gate num base limit access gran gdt_entries = update gdt_entries num (record {
  base_low = u16 (bit_and base 0xFFFF);
  base_middle = u8 (bit_and (base / 2 ^ 16) 0xFF);
  base_high = u8 (bit_and (base / 2 ^ 24) 0xFF);
  limit_low = u16 (bit_and limit 0xFFFF);
  granularity = u8 (bit_or (u8 (bit_and (limit / 2 ^ 16) 0x0F)) (bit_and gran 0xF0));
  access = access;
})

-- The table, what `lgdt` loads, and the two fields of the task state segment that `gdt_init` writes.
pub record Gdt : Type 0 where
  pub gdt_entries : ℕ → GdtEntry
  pub limit : ℕ
  pub base : ℕ
  pub ss0 : ℕ
  pub iomap_base : ℕ

-- `sizeof(gdt_entry_t)` and `sizeof(tss_t)`.
abbrev pub gdt_entry_size : ℕ
gdt_entry_size = 8

abbrev pub tss_size : ℕ
tss_size = 104

-- The six gates of `gdt_init`.
unfoldable pub gdt_gates : (tss : ℕ) → (ℕ → GdtEntry) → ℕ → GdtEntry
gdt_gates tss gdt_entries = gdt_set_gate 5 tss (tss_size - 1) 0x89 0x0 (
    gdt_set_gate 4 0 0xFFFFFFFF 0xFA 0xCF (
      gdt_set_gate 3 0 0xFFFFFFFF 0xF2 0xCF (
        gdt_set_gate 2 0 0xFFFFFFFF 0x92 0xCF
          (gdt_set_gate 1 0 0xFFFFFFFF 0x9A 0xCF (gdt_set_gate 0 0 0 0 0 gdt_entries)))))

-- `gdt_init`, with the addresses of the table and of the task state segment.
unfoldable pub gdt_init : (table tss : ℕ) → Gdt → Gdt
gdt_init table tss g = record {
  gdt_entries = gdt_gates tss g.gdt_entries;
  limit = u16 (gdt_entry_size * 6 - 1);
  base = table;
  ss0 = 0x10;
  iomap_base = tss_size;
}

-- `idt_entry_t`
pub record IdtEntry : Type 0 where
  pub isr_low : ℕ
  pub kernel_cs : ℕ
  pub reserved : ℕ
  pub attributes : ℕ
  pub isr_high : ℕ

-- `idt_set_descriptor`, on the table `idt_entries`.
unfoldable pub idt_set_descriptor : (vector isr flags : ℕ) → (ℕ → IdtEntry) → ℕ → IdtEntry
idt_set_descriptor vector isr flags idt_entries = update idt_entries vector (record {
  isr_low = bit_and (u32 isr) 0xFFFF;
  kernel_cs = 0x08;
  attributes = flags;
  isr_high = u32 isr / 2 ^ 16;
  reserved = 0;
})

-- The loop of `idt_init` with `rounds` rounds to go from `vector` on.
unfoldable pub set_exceptions :
    (isr_stub_table : ℕ → ℕ) (vector rounds : ℕ) → (ℕ → IdtEntry) → ℕ → IdtEntry
set_exceptions isr_stub_table vector zero idt_entries = idt_entries
set_exceptions isr_stub_table vector (suc rounds) idt_entries =
    set_exceptions isr_stub_table (vector + 1) rounds
      (idt_set_descriptor vector (isr_stub_table vector) 0x8E idt_entries)

-- The table and what `lidt` loads.
pub record Idt : Type 0 where
  pub idt_entries : ℕ → IdtEntry
  pub base : ℕ
  pub limit : ℕ

-- `sizeof(idt_entry_t)`
abbrev pub idt_entry_size : ℕ
idt_entry_size = 8

-- `idt_init`, with the table's address.
unfoldable pub idt_init :
    (table : ℕ) (isr_stub_table : ℕ → ℕ) (irq0_stub irq1_stub syscall_stub : ℕ) → Idt → Idt
idt_init table isr_stub_table irq0_stub irq1_stub syscall_stub t = record {
  base = table;
  limit = u16 (idt_entry_size * 256 - 1);
  idt_entries = idt_set_descriptor 0x80 syscall_stub 0xEE (
      idt_set_descriptor 33 irq1_stub 0x8E
        (idt_set_descriptor 32 irq0_stub 0x8E (set_exceptions isr_stub_table 0 32 t.idt_entries)));
}
