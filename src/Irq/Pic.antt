-- ===== src/Irq/Pic.antt =====
-- The masks of the two 8259 controllers: kernel/arch/i386/8259_pic.c. The controllers are hardware,
-- so what `inb` reads from a mask port is an argument, and a function gives the bytes it writes.
pub mod Laws
use eaburns_sos.Prelude.{ℕ, ◌+◌, ◌-◌, ◌^◌, List, [], ◌∷◌, ltb, if◌then◌else◌, bit_and, bit_or, u8}
use eaburns_sos.Irq.{Out, out}

abbrev pub pic_0_port : ℕ
pic_0_port = 0x21

abbrev pub pic_1_port : ℕ
pic_1_port = 0xa1

-- PIC_0_MAX_IRQ
abbrev pub pic_0_max_irq : ℕ
pic_0_max_irq = 7

-- `~(1<<n)` on 32 bits, for `n` below 32
abbrev pub all_but : ℕ → ℕ
all_but n = 4294967295 - 2 ^ n

unfoldable pub init_pic : List Out
init_pic =
    out 0x20 0x11
    ∷ out 0xa0 0x11
    ∷ out 0x21 0x28
    ∷ out 0xa1 0x30
    ∷ out 0x21 0x04
    ∷ out 0xa1 0x02
    ∷ out 0x21 0x01
    ∷ out 0xa1 0x01
    ∷ out pic_0_port (u8 (all_but 2))
    ∷ out pic_1_port (u8 4294967295)
    ∷ []

-- The shift counts stay below 32 for the lines 0 to 15, the only ones the kernel has.
unfoldable pub enable_irq : (ℕ → ℕ) → ℕ → List Out
enable_irq inb num =
    if ltb num pic_0_max_irq
    then out pic_0_port (u8 (bit_and (inb pic_0_port) (all_but num))) ∷ []
    else out pic_1_port (u8 (bit_and (inb pic_1_port) (all_but (num - pic_0_max_irq + 1)))) ∷ []

unfoldable pub disable_irq : (ℕ → ℕ) → ℕ → List Out
disable_irq inb num =
    if ltb num pic_0_max_irq
    then out pic_0_port (u8 (bit_or (inb pic_0_port) (all_but num))) ∷ []
    else out pic_1_port (u8 (bit_or (inb pic_1_port) (all_but (num - pic_0_max_irq + 1)))) ∷ []
