-- ===== src/Cpu/Descriptor.antt =====
-- Descriptor table entries: kernel/arch/i386/descriptor.c and include/descriptor.h.
-- A bit field keeps the low bits of what is assigned to it.
pub mod Laws
use eaburns_sos.Prelude.{ℕ, ◌/◌, ◌%◌, ◌^◌, u16}

-- `interrupt_descriptor`
pub record InterruptDescriptor : Type 0 where
  pub offset_low : ℕ
  pub selector : ℕ
  pub dword_count : ℕ
  pub zero0 : ℕ
  pub type : ℕ
  pub zero1 : ℕ
  pub dpl : ℕ
  pub p : ℕ
  pub offset_high : ℕ

-- `global_descriptor`
pub record GlobalDescriptor : Type 0 where
  pub limit_low : ℕ
  pub base_low : ℕ
  pub type : ℕ
  pub dpl : ℕ
  pub p : ℕ
  pub limit_high : ℕ
  pub avl : ℕ
  pub zero : ℕ
  pub opsize : ℕ
  pub granularity : ℕ
  pub base_high : ℕ

abbrev pub kcode_selector : ℕ
kcode_selector = 0x8

abbrev pub tss_selector : ℕ
tss_selector = 0x28

abbrev pub dpl_kernel : ℕ
dpl_kernel = 0

abbrev pub dpl_user : ℕ
dpl_user = 3

abbrev pub desc_type_intr_gate : ℕ
desc_type_intr_gate = 14

abbrev pub desc_type_trap_gate : ℕ
desc_type_trap_gate = 15

unfoldable pub set_interrupt : (funct selector type dpl : ℕ) → InterruptDescriptor
set_interrupt funct selector type dpl = record {
  offset_low = u16 funct;
  selector = u16 selector;
  dword_count = 0;
  zero0 = 0;
  type = type % 2 ^ 4;
  zero1 = 0;
  dpl = dpl % 2 ^ 2;
  p = 1;
  offset_high = u16 (funct / 2 ^ 16);
}

unfoldable pub set_selector : (base limit type dpl opsize gran : ℕ) → GlobalDescriptor
set_selector base limit type dpl opsize gran = record {
  limit_low = u16 limit;
  base_low = base % 2 ^ 24;
  type = type % 2 ^ 5;
  dpl = dpl % 2 ^ 2;
  p = 1;
  limit_high = limit / 2 ^ 16 % 2 ^ 3;
  avl = 0;
  zero = 0;
  opsize = opsize % 2;
  granularity = gran % 2;
  base_high = base / 2 ^ 24 % 2 ^ 8;
}
