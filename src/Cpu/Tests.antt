-- ===== src/Cpu/Tests.antt =====
-- Descriptors, gates and exceptions at concrete values.
use eaburns_sos.Prelude.{ℕ, ◌+◌, ◌≡◌, arith, some, get_elem?, true}
use eaburns_sos.Cpu.Gdt.{init_gdt}
use eaburns_sos.Cpu.Gdt.Laws.{IsEntry, init_gdt_lem}
use eaburns_sos.Cpu.Idt.{Trap, irq, init_idt}
use eaburns_sos.Cpu.Idt.Laws.{init_idt-entry, entry_at}
use eaburns_sos.Cpu.Trap.Laws.{Processor}

abbrev entry : Trap → ℕ
entry (irq n) = 4096 + n
entry t = 0

init_idt_example : get_elem? (init_idt entry) 48 ≡ some (entry_at entry 48)
init_idt_example = init_idt-entry entry 48 (omega arith)

abbrev running : Processor
running = record { enabled = true; halted = true }

-- entry 2, the kernel's data segment
init_gdt_example : IsEntry 0x100000 2 (init_gdt 0x100000 2)
init_gdt_example = init_gdt_lem 0x100000 2 (omega arith)
