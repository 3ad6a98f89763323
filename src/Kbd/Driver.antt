-- ===== src/Kbd/Driver.antt =====
-- The keyboard driver: kernel/dev/kbd.c. The byte that the keyboard's port gives is an argument.
use eaburns_sos.Prelude.{
  ℕ, ◌/◌, ◌%◌, List, [], Option, none, some, Bool, true, ReturnCode, ret_failure, ret_success,
  if◌then◌else◌, ◌==◌,
}
use eaburns_sos.Irq.{Irqs, bind_irq, Out}
use eaburns_sos.Irq.Pic.{enable_irq, disable_irq}

-- The file's static variables; `once` is the guard of ONLY_ONCE().
pub record Driver (Handler : Type 0) : Type 0 where
  pub once : Bool
  pub inited : Bool
  pub attached : Bool
  pub handler : Option Handler
  pub kbd_io_base : ℕ
  pub kbd_io_off : ℕ
  pub kbd_io_type : ℕ

unfoldable pub kbd_disable : (inb : ℕ → ℕ) → List Out
kbd_disable inb = disable_irq inb 1

module _ {Handler : Type 0} where
  unfoldable pub kbd_attach : Driver Handler → (type base off : ℕ) → Handler → Driver Handler
  kbd_attach d type base off h = record d {
    kbd_io_base = base;
    kbd_io_off = off;
    kbd_io_type = type;
    handler = some h;
    attached = true;
  }

  -- the bytes that are written to the controllers' masks
  unfoldable pub kbd_enable : Driver Handler → (inb : ℕ → ℕ) → List Out
  kbd_enable d inb = if d.inited then enable_irq inb 1 else []

  -- `none` is RET_INITED, where nothing happens. `kbd_interrupt` is given by its address.
  unfoldable pub kbd_init :
      (kbd_interrupt : ℕ)
      → (inb : ℕ → ℕ) → Driver Handler × Irqs
      → Option (Driver Handler × Option Irqs × List Out)
  kbd_init kbd_interrupt inb (d, t) =
      if d.once
      then none
      else (let d' : Driver Handler = record d { once = true; inited = true } in
          some (d', bind_irq t 1 (some kbd_interrupt), kbd_enable d' inb))

  -- The call of the handler with a key and its state, if there is one.
  unfoldable pub kbd_interrupt : Driver Handler → (byte : ℕ) → ReturnCode × Option (Handler × ℕ × ℕ)
  kbd_interrupt d byte =
      if d.attached
      then (
        ret_success,
        elim d.handler [
          | none ↦ none
          | some h ↦ some (h, byte % 128, if byte / 128 % 2 == 0 then 0 else 1)
        ],
      )
      else (ret_failure, none)
