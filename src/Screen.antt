-- ===== src/Screen.antt =====
-- The basic console's screen: kernel/dev/bcon.c, kernel/dev/bcon_cursor.c,
-- kernel/arch/i386/dev/bcon.c and the C versions of kernel/lib/memutil.c.
pub mod Crtc
pub mod Memory
pub mod Cursor
pub mod Put
mod Tests
