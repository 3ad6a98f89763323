-- ===== src/Efs/Superblock/Laws.antt =====
-- What is written into the superblock is read back.
use eaburns_sos.Prelude.{
  ℕ, ◌+◌, ◌*◌, ◌/◌, ◌%◌, ◌<◌, ◌≤◌, ◌≡◌, ◌⊎◌, ◌↔◌, refl, ap, arith, some, true, get_or, sub32,
}
use eaburns_sos.Efs.Device.{Device, read_block, write_block}
use eaburns_sos.Efs.Superblock.{
  Superblock, superblock_of, block_of, fresh_superblock, get_superblock, create_superblock,
  validate_efs, ident_rejected, efs_ident,
}

pub le32-bytes :
    (v : ℕ)
    → v < 4294967296
    → v % 256 + 256 * (v / 256 % 256) + 65536 * (v / 65536 % 256) + 16777216 * (v / 16777216 % 256)
      ≡ v
le32-bytes v h = omega arith

superblock_of-block_of :
    (count : ℕ) → superblock_of (block_of (fresh_superblock count)) ≡ fresh_superblock count
unfolding superblock_of block_of fresh_superblock
superblock_of-block_of count =
    ap
      (λ (n : ℕ). record {
        ident = efs_ident;
        inode_offset = 1;
        inode_count = 64;
        data_offset = 5;
        data_count = n;
      })
      (le32-bytes (sub32 count 5) (omega arith))

module _ (dev : Device) where
  open dev use {Image, pread-pwrite_self}

  -- After `create_superblock` with a count of blocks, the superblock that is read back is the one
  -- that was filled in; it describes 64 inodes from block 1 and the data blocks from block 5, as
  -- many as remain, and its image is accepted as a file system.
  pub create_superblock_lem :
      (d d' : Image) (count : ℕ)
      → 5 ≤ count
      → count < 4294967296
      → create_superblock dev d count ≡ some d'
      → (get_superblock dev d' ≡ some (fresh_superblock count))
        × ((fresh_superblock count).data_offset + (fresh_superblock count).data_count ≡ count)
        × (validate_efs dev d' ≡ some true)
  unfolding create_superblock get_superblock write_block read_block fresh_superblock validate_efs
      ident_rejected block_of
  create_superblock_lem d d' count lo hi e =
      let r : dev.pread d' 0 ≡ some (block_of (fresh_superblock count)) =
        pread-pwrite_self d d' 0 (block_of (fresh_superblock count)) refl e in
      let back : superblock_of (block_of (fresh_superblock count)) ≡ fresh_superblock count =
        superblock_of-block_of count in
      (rw (r, back) refl, omega arith, rw (r, back) refl)

  -- `validate_efs` accepts an image exactly where at least one of the four ident bytes is right.
  pub validate_efs_lem :
      (d : Image) (sb : Superblock)
      → get_superblock dev d ≡ some sb
      → (validate_efs dev d ≡ some true) ↔ (
          (get_or sb.ident 0 0 ≡ 255)
          ⊎ (get_or sb.ident 1 0 ≡ 69)
          ⊎ (get_or sb.ident 2 0 ≡ 102)
          ⊎ (get_or sb.ident 3 0 ≡ 83))
  unfolding validate_efs ident_rejected get_superblock read_block
  validate_efs_lem d sb e = rw e (ground arith)
