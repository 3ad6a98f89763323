-- ===== src/Text.antt =====
-- Text: kernel/lib/kstring.c, kernel/lib/kstdio.c, and the console table of kernel/console.c.
pub mod Compare
pub mod Number
pub mod Format
pub mod Buffer
mod Tests
