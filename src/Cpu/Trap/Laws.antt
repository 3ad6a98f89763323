-- ===== src/Cpu/Trap/Laws.antt =====
-- How the handlers of kernel/interrupt.c leave the processor.
use eaburns_sos.Prelude.{ℕ, ◌≡◌, refl, List, [], ◌∷◌, Bool, true, false, arith}
use eaburns_sos.Cpu.Trap.{
  Action, mask, print, print_with, halt, Exception, interrupt_exception, interrupt_illegal,
  interrupt_page,
}

-- the processor: interrupts on or off, and stopped or running
pub record Processor : Type 0 where
  pub enabled : Bool
  pub halted : Bool

abbrev pub act : Processor → Action → Processor
act s mask = record s { enabled = false }
act s (print t) = s
act s (print_with t ns) = s
act s halt = record s { halted = true }

abbrev pub perform : Processor → List Action → Processor
perform s [] = s
perform s (a ∷ l) = perform (act s a) l

abbrev pub dead : Processor
dead = record { enabled = false; halted = true }

-- Every exception, page faults and illegal instructions included, leaves the processor stopped with
-- interrupts off.
pub exceptions_stop :
    (s : Processor) (e : Exception) (ip cr2 code : ℕ)
    → (perform s (interrupt_exception e) ≡ dead)
      × (perform s (interrupt_illegal ip) ≡ dead)
      × (perform s (interrupt_page cr2 code) ≡ dead)
unfolding interrupt_exception interrupt_illegal interrupt_page
exceptions_stop s e ip cr2 code = (refl, refl, ground arith)
