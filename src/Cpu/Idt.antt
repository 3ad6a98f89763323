-- ===== src/Cpu/Idt.antt =====
-- The interrupt descriptor table that `init_cpu` of kernel/arch/i386/cpu.c builds. The addresses of
-- the assembly entry points come from the linker: `address` gives them.
pub mod Laws
use eaburns_sos.Prelude.{ℕ, zero, suc, ◌+◌, List, [], ◌∷◌, set, replicate}
use eaburns_sos.Cpu.Descriptor.{
  InterruptDescriptor, set_interrupt, kcode_selector, dpl_kernel, dpl_user, desc_type_intr_gate,
  desc_type_trap_gate,
}

-- the `interrupt_…` entry points of kernel/arch/i386/include/trap.h
pub data Trap : Type 0 where
  divide debug nmi break overflow bound illegal fpu doublefault cso : Trap
  invalidtts segnotpres stack genpro page reserved floatpt align machine : Trap
  irq : ℕ → Trap
  syscall : Trap

abbrev pub idt_entries : ℕ
idt_entries = 129

-- an entry that `bzero` cleared: not present
abbrev pub empty_gate : InterruptDescriptor
empty_gate = record {
  offset_low = 0;
  selector = 0;
  dword_count = 0;
  zero0 = 0;
  type = 0;
  zero1 = 0;
  dpl = 0;
  p = 0;
  offset_high = 0;
}

abbrev pub Table : Type 0
Table = List InterruptDescriptor

module _ (address : Trap → ℕ) where
  -- one call of `set_interrupt` on `idt[i]`
  abbrev pub gate : ℕ → Trap → ℕ → ℕ → Table → Table
  gate i t type dpl idt = set idt i (set_interrupt (address t) kcode_selector type dpl)

  abbrev pub trap : ℕ → Trap → Table → Table
  trap i t = gate i t desc_type_trap_gate dpl_kernel

  -- `for( i = first; i < first+n; i++ ) set_interrupt( &idt[i], … )`
  abbrev pub fill : ℕ → ℕ → Trap → Table → Table
  fill i zero t idt = idt
  fill i (suc n) t idt = fill (i + 1) n t (trap i t idt)

  unfoldable pub set_exceptions : Table → Table
  set_exceptions idt =
      let idt = trap 0 divide idt in
      let idt = trap 1 debug idt in
      let idt = trap 2 nmi idt in
      let idt = trap 3 break idt in
      let idt = trap 4 overflow idt in
      let idt = trap 5 bound idt in
      let idt = trap 6 illegal idt in
      let idt = trap 7 fpu idt in
      let idt = trap 8 doublefault idt in
      let idt = trap 9 cso idt in
      let idt = trap 10 invalidtts idt in
      let idt = trap 11 segnotpres idt in
      let idt = trap 12 stack idt in
      let idt = trap 13 genpro idt in
      let idt = trap 14 page idt in
      let idt = trap 15 reserved idt in
      let idt = trap 16 floatpt idt in
      let idt = trap 17 align idt in
      let idt = trap 18 machine idt in
      let idt = fill 19 13 reserved idt in let idt = fill 32 8 reserved idt in idt

  unfoldable pub set_irqs : Table → Table
  set_irqs idt =
      let idt = trap 40 (irq 0) idt in
      let idt = trap 41 (irq 1) idt in
      let idt = trap 42 (irq 2) idt in
      let idt = trap 43 (irq 3) idt in
      let idt = trap 44 (irq 4) idt in
      let idt = trap 45 (irq 5) idt in
      let idt = trap 46 (irq 6) idt in
      let idt = trap 47 (irq 7) idt in
      let idt = trap 48 (irq 8) idt in
      let idt = trap 48 (irq 9) idt in
      let idt = trap 50 (irq 10) idt in
      let idt = trap 51 (irq 11) idt in
      let idt = trap 52 (irq 12) idt in
      let idt = trap 53 (irq 13) idt in
      let idt = trap 54 (irq 14) idt in let idt = trap 55 (irq 15) idt in idt

  unfoldable pub set_rest : Table → Table
  set_rest idt =
      let idt = fill 56 72 reserved idt in
      let idt = gate 128 syscall desc_type_intr_gate dpl_user idt in idt

  unfoldable pub init_idt : Table
  unfolding set_exceptions set_irqs set_rest set_interrupt
  init_idt = set_rest (set_irqs (set_exceptions (replicate idt_entries empty_gate)))
