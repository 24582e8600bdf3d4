-- ===== src/Descriptors/Tests.antt =====
-- The gates of one table, read back.
use kernel_study.Base.{ℕ, ◌≡◌, ◌≢◌, arith}
use kernel_study.Descriptors.{GdtEntry, gdt_set_gate, IdtEntry, Idt}
use kernel_study.Descriptors.Decode.{gdt_base, gdt_limit, gdt_flags, gdt_set_gate-decode}

abbrev no_gates : ℕ → GdtEntry
no_gates i = record {
  limit_low = 0;
  base_low = 0;
  base_middle = 0;
  access = 0;
  granularity = 0;
  base_high = 0;
}

gdt_set_gate-decode_example :
    let after = gdt_set_gate 5 0xC0123456 103 0x89 0x0 no_gates in
    (gdt_base (after 5) ≡ 0xC0123456)
    × (gdt_limit (after 5) ≡ 103)
    × (gdt_flags (after 5) ≡ 0)
    × ((after 5).access ≡ 0x89)
    × ((j : ℕ) → 5 ≢ j → after j ≡ no_gates j)
gdt_set_gate-decode_example =
    gdt_set_gate-decode 5 0xC0123456 103 0x89 0x0 no_gates (omega arith) (omega arith) (omega arith)

abbrev no_vectors : ℕ → IdtEntry
no_vectors i = record { isr_low = 0; kernel_cs = 0; reserved = 0; attributes = 0; isr_high = 0 }

abbrev no_idt : Idt
no_idt = record { idt_entries = no_vectors; base = 0; limit = 0 }
