-- ===== src/Irq/Pit.antt =====
-- The timer chip: kernel/arch/i386/8253_timer.c.
use eaburns_sos.Prelude.{ℕ, ◌/◌, ◌%◌, List, [], ◌∷◌, Option, some}
use eaburns_sos.Irq.{Irqs, bind_irq, Out, out}

abbrev pub period : ℕ
period = 11931

-- The bytes written to the chip, and the table with `timer_interrupt` bound to line 0.
unfoldable pub init_timer : (timer_interrupt : ℕ) → Irqs → List Out × Option Irqs
init_timer timer_interrupt t = (
  out 0x43 0x36 ∷ out 0x40 (period % 256) ∷ out 0x40 (period / 256 % 256) ∷ [],
  bind_irq t 0 (some timer_interrupt),
)
