-- ===== src/Descriptors/Decode.antt =====
-- What the processor reads out of the descriptor tables.
use kernel_study.Base.{
  ℕ, zero, suc, ◌+◌, ◌*◌, ◌/◌, ◌%◌, ◌^◌, ◌<◌, ◌≤◌, ◌≡◌, ◌≢◌, refl, Bool, true, arith, ◌==◌, ==_iff,
  bit_and, bit_or, each, each_at, update_self, update_ne, u8, u32, ◌∙◌, ℕ_discrete,
}
use kernel_study.Base.Bits.{bit_and_low}
use kernel_study.Descriptors.{
  GdtEntry, gdt_set_gate, IdtEntry, Idt, idt_set_descriptor, set_exceptions, idt_init,
}

-- The base and the 20-bit limit of a segment, and its four flags.
abbrev pub gdt_base : GdtEntry → ℕ
gdt_base e = e.base_low + e.base_middle * 2 ^ 16 + e.base_high * 2 ^ 24

abbrev pub gdt_limit : GdtEntry → ℕ
gdt_limit e = e.limit_low + e.granularity % 2 ^ 4 * 2 ^ 16

abbrev pub gdt_flags : GdtEntry → ℕ
gdt_flags e = e.granularity / 2 ^ 4

-- The handler's address.
abbrev pub idt_isr : IdtEntry → ℕ
idt_isr e = e.isr_low + e.isr_high * 2 ^ 16

abbrev join_law : ℕ → ℕ → Bool
join_law gran high = u8 (bit_or high (bit_and gran 0xF0)) == gran / 16 * 16 + high

join_table : each (λ gran. each (join_law gran) 16) 256 ≡ true
unfolding each
join_table = refl

join_nibbles :
    (gran high : ℕ)
    → gran < 256
    → high < 16
    → u8 (bit_or high (bit_and gran 0xF0)) ≡ gran / 16 * 16 + high
join_nibbles gran high hg hh = (==_iff _ _).0 (
    each_at (join_law gran) 16 (each_at (λ g. each (join_law g) 16) 256 join_table gran hg) high hh)

-- The gate that `gdt_set_gate` writes reads back as the base, the low twenty bits of the limit, the
-- access byte and the upper half of the granularity byte that it was given, and no other gate
-- changes.
pub gdt_set_gate-decode :
    (num base limit access gran : ℕ) (gdt_entries : ℕ → GdtEntry)
    → base < 2 ^ 32
    → limit < 2 ^ 32
    → gran < 2 ^ 8
    → let after = gdt_set_gate num base limit access gran gdt_entries in
      (gdt_base (after num) ≡ base)
      × (gdt_limit (after num) ≡ limit % 2 ^ 20)
      × (gdt_flags (after num) ≡ gran / 2 ^ 4)
      × ((after num).access ≡ access)
      × ((j : ℕ) → num ≢ j → after j ≡ gdt_entries j)
unfolding gdt_set_gate
gdt_set_gate-decode num base limit access gran g hb hl hg =
    let low = bit_and_low 16 base (omega arith) in
    let mid = bit_and_low 8 (base / 2 ^ 16) (omega arith) in
    let top = bit_and_low 8 (base / 2 ^ 24) (omega arith) in
    let lim = bit_and_low 16 limit (omega arith) in
    let nib = bit_and_low 4 (limit / 2 ^ 16) (omega arith) in
    let join =
      join_nibbles gran (u8 (bit_and (limit / 2 ^ 16) 0x0F)) (omega (arith, hg))
        (omega (arith, nib)) in
    rw (update_self g num) (
      omega (arith, low, mid, top, hb),
      omega (arith, lim, nib, join, hl),
      omega (arith, nib, join, hg),
      refl,
      λ j ne. update_ne g num j _ ne,
    )

isr_of_set :
    (vector isr flags : ℕ) (g : ℕ → IdtEntry)
    → isr < 2 ^ 32
    → idt_isr (idt_set_descriptor vector isr flags g vector) ≡ isr
unfolding idt_set_descriptor
isr_of_set vector isr flags g h =
    rw (update_self g vector) (omega (arith, bit_and_low 16 (u32 isr) (omega arith)))

set_other :
    (vector isr flags j : ℕ) (g : ℕ → IdtEntry)
    → vector ≢ j
    → idt_set_descriptor vector isr flags g j ≡ g j
unfolding idt_set_descriptor
set_other vector isr flags j g ne = update_ne g vector j _ ne

set_exceptions_before :
    (table : ℕ → ℕ) (vector rounds j : ℕ) (g : ℕ → IdtEntry)
    → j < vector
    → set_exceptions table vector rounds g j ≡ g j
unfolding set_exceptions
set_exceptions_before table vector zero j g h = refl
set_exceptions_before table vector (suc rounds) j g h =
    set_exceptions_before table (vector + 1) rounds j _ (omega (arith, h))
    ∙ set_other vector (table vector) 0x8E j g (omega (arith, h))

beyond :
    (table : ℕ → ℕ) (vector rounds j : ℕ) (g : ℕ → IdtEntry)
    → vector + rounds ≤ j
    → set_exceptions table vector rounds g j ≡ g j
unfolding set_exceptions
beyond table vector zero j g h = refl
beyond table vector (suc rounds) j g h =
    beyond table (vector + 1) rounds j _ (omega (arith, h))
    ∙ set_other vector (table vector) 0x8E j g (omega (arith, h))

set_exceptions_lem :
    (table : ℕ → ℕ) (vector rounds j : ℕ) (g : ℕ → IdtEntry)
    → vector ≤ j
    → j < vector + rounds
    → table j < 2 ^ 32
    → idt_isr (set_exceptions table vector rounds g j) ≡ table j
unfolding set_exceptions
set_exceptions_lem table vector zero j g low high w = absurd (omega (arith, low, high))
set_exceptions_lem table vector (suc rounds) j g low high w = elim (ℕ_discrete vector j) [
  | yes e ↦
      let kept =
        set_exceptions_before table (vector + 1) rounds j
          (idt_set_descriptor vector (table vector) 0x8E g) (omega (arith, e)) in
      let here : idt_isr (idt_set_descriptor j (table j) 0x8E g j) ≡ table j =
        isr_of_set j (table j) 0x8E g w in
      rw kept (rw e here)
  | no ne ↦
      set_exceptions_lem table (vector + 1) rounds j _ (omega (arith, low, ne))
        (omega (arith, high)) w
]

-- `idt_init` points the exception vectors 0 to 31 at the stubs of `isr_stub_table`, the vectors 32
-- and 33 at the stubs of the timer and of the keyboard and the vector 0x80 at the stub of system
-- calls, each address whole, and writes no other vector.
pub idt_init-decode :
    (at : ℕ) (table : ℕ → ℕ) (irq0 irq1 syscall : ℕ) (t : Idt)
    → ((j : ℕ) → table j < 2 ^ 32)
    → irq0 < 2 ^ 32
    → irq1 < 2 ^ 32
    → syscall < 2 ^ 32
    → let after = (idt_init at table irq0 irq1 syscall t).idt_entries in
      ((j : ℕ) → j < 32 → idt_isr (after j) ≡ table j)
      × (idt_isr (after 32) ≡ irq0)
      × (idt_isr (after 33) ≡ irq1)
      × (idt_isr (after 0x80) ≡ syscall)
      × ((j : ℕ) → 33 < j → j ≢ 0x80 → after j ≡ t.idt_entries j)
unfolding idt_init
idt_init-decode at table irq0 irq1 syscall t ht h0 h1 hs =
    let g = t.idt_entries in
    let e32 = set_exceptions table 0 32 g in
    let e33 = idt_set_descriptor 32 irq0 0x8E e32 in
    let e34 = idt_set_descriptor 33 irq1 0x8E e33 in
    let outside : (j : ℕ)
        → j ≢ 32
        → j ≢ 33
        → j ≢ 0x80
        → idt_set_descriptor 0x80 syscall 0xEE e34 j ≡ e32 j =
      λ j a b c.
        set_other 0x80 syscall 0xEE j e34 (omega (arith, c))
        ∙ set_other 33 irq1 0x8E j e33 (omega (arith, b))
        ∙ set_other 32 irq0 0x8E j e32 (omega (arith, a)) in
    (
      λ j h.
          rw (outside j (omega (arith, h)) (omega (arith, h)) (omega (arith, h)))
            (set_exceptions_lem table 0 32 j g (omega arith) (omega (arith, h)) (ht j)),
      rw
          (
            set_other 0x80 syscall 0xEE 32 e34 (omega arith),
            set_other 33 irq1 0x8E 32 e33 (omega arith),
          )
          (isr_of_set 32 irq0 0x8E e32 h0),
      rw (set_other 0x80 syscall 0xEE 33 e34 (omega arith)) (isr_of_set 33 irq1 0x8E e33 h1),
      isr_of_set 0x80 syscall 0xEE e34 hs,
      λ j h ne.
          outside j (omega (arith, h)) (omega (arith, h)) ne
          ∙ beyond table 0 32 j g (omega (arith, h)),
    )
