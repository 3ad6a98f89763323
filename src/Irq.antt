-- ===== src/Irq.antt =====
-- Interrupt requests: the callback table of kernel/irq.c, its dispatch in kernel/interrupt.c
-- (`interrupt_irq`), and the wrappers of kernel/arch/i386/irq.c.
pub mod Laws
pub mod Pic
pub mod Pit
mod Tests
use eaburns_sos.Prelude.{
  ℕ, List, [], ◌∷◌, Option, none, some, Bool, get_elem?, set, length, replicate, ltb, if◌then◌else◌,
}

-- MAX_IRQ_NUM, the length of the table
abbrev pub max_irq_num : ℕ
max_irq_num = 15

-- A callback is its address; `none` is NULL.
abbrev pub Irqs : Type 0
Irqs = List (Option ℕ)

-- `irqs[]` as the file initialises it
abbrev pub no_irqs : Irqs
no_irqs = replicate max_irq_num none

-- The assignment `irqs[num] = handler`. `none` is a write past the table, which C leaves undefined.
unfoldable pub bind_irq : Irqs → ℕ → Option ℕ → Option Irqs
bind_irq t num handler = if ltb num (length t) then some (set t num handler) else none

pub data Dispatch : Type 0 where
  -- a read past the table
  wild : Dispatch
  -- no callback
  ignored : Dispatch
  call : ℕ → Dispatch

unfoldable pub interrupt_irq : Irqs → ℕ → Dispatch
interrupt_irq t num = elim (get_elem? t num) [
  | none ↦ wild
  | some h ↦ elim h [ none ↦ ignored | some f ↦ call f ]
]

-- a byte on an I/O port
pub record Out : Type 0 where
  pub port : ℕ
  pub byte : ℕ

abbrev pub out : ℕ → ℕ → Out
out p b = record { port = p; byte = b }

-- `__i386_interrupt_irq_short` and `__i386_interrupt_irq_long`, which are the same code: the end
-- of interrupt (0x20) goes to both controllers for the lines of the second one, then the callback
-- runs.
unfoldable pub i386_interrupt_irq : Irqs → ℕ → List Out × Dispatch
i386_interrupt_irq t num = (
  if ltb 7 num then out 0xa0 0x20 ∷ out 0x20 0x20 ∷ [] else out 0x20 0x20 ∷ [],
  interrupt_irq t num,
)
