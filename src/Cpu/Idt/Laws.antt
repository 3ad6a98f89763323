-- ===== src/Cpu/Idt/Laws.antt =====
-- Which entry point each interrupt vector leads to after `init_cpu`.
use eaburns_sos.Prelude.{
  ℕ, zero, suc, ◌+◌, ◌-◌, ◌≡◌, refl, ap, ◌∙◌, List, [], ◌∷◌, ltb, ◌==◌, if◌then◌else◌, ◌<◌,
  get_elem?, some, arith,
}
use eaburns_sos.Cpu.Descriptor.{
  InterruptDescriptor, set_interrupt, kcode_selector, dpl_kernel, dpl_user, desc_type_intr_gate,
  desc_type_trap_gate,
}
use eaburns_sos.Cpu.Idt.{
  Trap, divide, debug, nmi, break, overflow, bound, illegal, fpu, doublefault, cso, invalidtts,
  segnotpres, stack, genpro, page, reserved, floatpt, align, machine, irq, syscall, init_idt,
  empty_gate, Table,
}

-- The processor's numbering of the exceptions.
abbrev pub exceptions : List Trap
exceptions =
    divide ∷ debug ∷ nmi ∷ break ∷ overflow ∷ bound ∷ illegal ∷ fpu ∷ doublefault ∷ cso ∷ invalidtts
    ∷ segnotpres ∷ stack ∷ genpro ∷ page ∷ reserved ∷ floatpt ∷ align ∷ machine ∷ []

abbrev or_reserved : List Trap → ℕ → Trap
or_reserved [] i = reserved
or_reserved (t ∷ ts) zero = t
or_reserved (t ∷ ts) (suc i) = or_reserved ts i

-- What vector `i` is for: the exceptions first, interrupt line `n` at `40 + n`, system calls at 128.
abbrev pub trap_at : ℕ → Trap
trap_at i =
    if ltb i 40
    then or_reserved exceptions i
    else if ltb i 56
    then irq (i - 40)
    else if i == 128
    then syscall
    else reserved

-- The entry of vector `i`, with the two that the code does not set as intended: 48 holds line 9, and
-- 49 stays empty.
abbrev pub entry_at : (Trap → ℕ) → ℕ → InterruptDescriptor
entry_at address i =
    if i == 49
    then empty_gate
    else if i == 48
    then set_interrupt (address (irq 9)) kcode_selector desc_type_trap_gate dpl_kernel
    else if i == 128
    then set_interrupt (address syscall) kcode_selector desc_type_intr_gate dpl_user
    else set_interrupt (address (trap_at i)) kcode_selector desc_type_trap_gate dpl_kernel

abbrev entries : (Trap → ℕ) → ℕ → ℕ → Table
entries address i zero = []
entries address i (suc n) = entry_at address i ∷ entries address (i + 1) n

get_elem?-entries :
    (address : Trap → ℕ) (first n i : ℕ)
    → i < n
    → get_elem? (entries address first n) i ≡ some (entry_at address (first + i))
get_elem?-entries address first zero i h = absurd (omega arith)
get_elem?-entries address first (suc n) zero h =
    let e : first ≡ first + 0 = omega arith in ap (λ k. some (entry_at address k)) e
get_elem?-entries address first (suc n) (suc i) h =
    let e : first + 1 + i ≡ first + suc i = omega arith in
    get_elem?-entries address (first + 1) n i (omega arith) ∙ ap (λ k. some (entry_at address k)) e

init_idt_table : (address : Trap → ℕ) → init_idt address ≡ entries address 0 129
unfolding init_idt
init_idt_table address = refl

-- After `init_cpu` the vector of every exception, interrupt line and system call leads to its own
-- entry point, but for vector 48, which leads to the entry point of line 9 in place of line 8, and
-- vector 49, which is not present.
pub init_idt-entry :
    (address : Trap → ℕ) (i : ℕ)
    → i < 129
    → get_elem? (init_idt address) i ≡ some (entry_at address i)
init_idt-entry address i h =
    let e : 0 + i ≡ i = omega arith in
    rw init_idt_table (get_elem?-entries address 0 129 i h ∙ ap (λ k. some (entry_at address k)) e)
