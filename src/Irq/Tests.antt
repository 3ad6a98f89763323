-- ===== src/Irq/Tests.antt =====
-- Interrupt lines at concrete numbers.
use eaburns_sos.Prelude.{arith}
use eaburns_sos.Prelude.Bits.{bit}
use eaburns_sos.Irq.Pic.{disable_irq}
use eaburns_sos.Irq.Pic.Laws.{Masks, disable_irq_lem}

disable_example : Masks (λ p. 0) 9 3 bit (λ k m. 1) (disable_irq (λ p. 0) 9)
disable_example = disable_irq_lem (λ p. 0) 9 3 (omega arith) (omega arith)
