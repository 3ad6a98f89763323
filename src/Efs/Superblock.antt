-- ===== src/Efs/Superblock.antt =====
-- The superblock: efs/superblock.c, `validate_efs` of efs/efs.c, and `create_superblock` of
-- efs/mkefs.c.
pub mod Laws
use eaburns_sos.Prelude.{
  ℕ, ◌+◌, ◌-◌, ◌*◌, ◌/◌, ◌%◌, List, [], ◌∷◌, ◌++◌, Option, none, some, Bool, not, ◌&&◌, ◌==◌,
  get_or, take, drop, replicate, sub32, u32, map,
}
use eaburns_sos.Efs.Device.{Device, block_size, read_block, write_block}

-- `struct superblock`, 20 bytes with no padding
pub record Superblock : Type 0 where
  pub ident : List ℕ
  pub inode_offset : ℕ
  pub inode_count : ℕ
  pub data_offset : ℕ
  pub data_count : ℕ

-- BOOTCODE_LEN and SUPERBLOCK_LEN
abbrev pub bootcode_len : ℕ
bootcode_len = 512

abbrev pub superblock_len : ℕ
superblock_len = 20

-- a uint32 at offset `i`
abbrev pub le32 : List ℕ → ℕ → ℕ
le32 b i =
    get_or b i 0
    + 256 * get_or b (i + 1) 0
    + 65536 * get_or b (i + 2) 0
    + 16777216 * get_or b (i + 3) 0

abbrev pub bytes32 : ℕ → List ℕ
bytes32 v = v % 256 ∷ v / 256 % 256 ∷ v / 65536 % 256 ∷ v / 16777216 % 256 ∷ []

-- The copy of SUPERBLOCK_LEN bytes out of block 0.
unfoldable pub superblock_of : List ℕ → Superblock
superblock_of block =
    let b = take superblock_len (drop bootcode_len block) in
    record {
      ident = take 4 b;
      inode_offset = le32 b 4;
      inode_count = le32 b 8;
      data_offset = le32 b 12;
      data_count = le32 b 16;
    }

-- The copy of a superblock into a cleared block.
unfoldable pub block_of : Superblock → List ℕ
block_of sb =
    replicate bootcode_len 0
    ++ (sb.ident
        ++ (bytes32 sb.inode_offset
            ++ (bytes32 sb.inode_count
                ++ (bytes32 sb.data_offset
                    ++ (bytes32 sb.data_count
                        ++ replicate (block_size - bootcode_len - superblock_len) 0)))))

-- the ident bytes that `new_superblock` fills in
abbrev pub efs_ident : List ℕ
efs_ident = 0xff ∷ b'E' ∷ b'f' ∷ b'S' ∷ []

-- sizeof(struct inode)
abbrev pub inode_len : ℕ
inode_len = 64

-- `inode_blocks` of efs/mkefs.c
abbrev pub inode_blocks : ℕ
inode_blocks = 4

-- The superblock that `create_superblock` fills in, from `new_superblock`.
unfoldable pub fresh_superblock : (block_count : ℕ) → Superblock
fresh_superblock block_count = record {
  ident = efs_ident;
  inode_offset = 1;
  inode_count = block_size / inode_len * inode_blocks;
  data_offset = 1 + inode_blocks;
  data_count = sub32 block_count (1 + inode_blocks);
}

-- `validate_efs` after the superblock has been read. `ident` is of `char`, which is signed, so the
-- comparison with -1 is one with the byte 0xff.
unfoldable pub ident_rejected : Superblock → Bool
ident_rejected sb =
    not (get_or sb.ident 0 0 == 0xff)
    && not (get_or sb.ident 1 0 == b'E')
    && not (get_or sb.ident 2 0 == b'f')
    && not (get_or sb.ident 3 0 == b'S')

module _ (dev : Device) where
  open dev use {Image}

  unfoldable pub get_superblock : Image → Option Superblock
  get_superblock d = elim (read_block dev d 0) [ none ↦ none | some b ↦ some (superblock_of b) ]

  -- `none` is a device that cannot be read, `some true` an image that is accepted.
  unfoldable pub validate_efs : Image → Option Bool
  validate_efs d = elim (get_superblock d) [
    | none ↦ none
    | some sb ↦ some (not (ident_rejected sb))
  ]

  -- The result of the write is not looked at.
  unfoldable pub create_superblock : Image → (block_count : ℕ) → Option Image
  create_superblock d block_count = write_block dev d 0 (block_of (fresh_superblock block_count))
