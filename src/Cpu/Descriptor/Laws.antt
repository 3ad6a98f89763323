-- ===== src/Cpu/Descriptor/Laws.antt =====
-- What the processor reads back from the entries that kernel/arch/i386/descriptor.c builds.
use eaburns_sos.Prelude.{ℕ, ◌+◌, ◌*◌, ◌%◌, ◌^◌, ◌<◌, ◌≡◌, ◌↔◌, arith}
use eaburns_sos.Cpu.Descriptor.{InterruptDescriptor, GlobalDescriptor, set_interrupt, set_selector}

-- the entry point of a gate
abbrev pub gate_offset : InterruptDescriptor → ℕ
gate_offset d = d.offset_high * 2 ^ 16 + d.offset_low

-- the base address of a segment
abbrev pub segment_base : GlobalDescriptor → ℕ
segment_base d = d.base_high * 2 ^ 24 + d.base_low

-- the 20-bit limit: its bits 16 to 18 are `limit_high`, and bit 19 is the low bit of `avl`
abbrev pub segment_limit : GlobalDescriptor → ℕ
segment_limit d = d.avl % 2 * 2 ^ 19 + d.limit_high * 2 ^ 16 + d.limit_low

-- A gate leads to the function that it was given, with the selector, type and privilege level that
-- it was given, and is present.
pub set_interrupt_lem :
    (funct selector type dpl : ℕ)
    → funct < 2 ^ 32
    → selector < 2 ^ 16
    → type < 2 ^ 4
    → dpl < 2 ^ 2
    → let d = set_interrupt funct selector type dpl in
      (gate_offset d ≡ funct)
      × (d.selector ≡ selector)
      × (d.type ≡ type)
      × (d.dpl ≡ dpl)
      × (d.p ≡ 1)
unfolding set_interrupt
set_interrupt_lem funct selector type dpl hf hs ht hd = omega arith

-- A segment has the base that it was given; it has the limit that it was given exactly if that is
-- below 2 ^ 19, and otherwise loses bit 19 of it.
pub set_selector_lem :
    (base limit type dpl opsize gran : ℕ)
    → base < 2 ^ 32
    → limit < 2 ^ 20
    → let d = set_selector base limit type dpl opsize gran in
      (segment_base d ≡ base)
      × (segment_limit d ≡ limit % 2 ^ 19)
      × ((segment_limit d ≡ limit) ↔ (limit < 2 ^ 19))
unfolding set_selector
set_selector_lem base limit type dpl opsize gran hb hl =
    (omega arith, omega arith, (λ e. omega arith, λ h. omega arith))
