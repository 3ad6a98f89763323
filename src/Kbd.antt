-- ===== src/Kbd.antt =====
-- The keyboard: kernel/dev/bcon_kbd.c and kernel/dev/kbd.c.
pub mod Keymap
pub mod Queue
pub mod Keys
pub mod Driver
pub mod Reboot
mod Tests
