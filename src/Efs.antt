-- ===== src/Efs.antt =====
-- The EFS file system tools: efs/block.c, efs/superblock.c, efs/inode.c, efs/efs.c, efs/mkefs.c and
-- efs/writeefs.c, in their user-mode build. The disk image is reached through `Device`; numbers on
-- disk are little-endian, as on the i386.
pub mod Device
pub mod Block
pub mod Inode
pub mod Pointer
pub mod File
pub mod Tools
pub mod Superblock
mod Disk
mod Tests
mod FileTests
