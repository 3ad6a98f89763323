-- ===== src/Cpu.antt =====
-- The i386 descriptor tables and the exception handlers: kernel/arch/i386/descriptor.c, cpu.c and
-- kernel/interrupt.c.
pub mod Descriptor
pub mod Idt
pub mod Tss
pub mod Gdt
pub mod Trap
mod Tests
