-- ===== src/Efs/Inode.antt =====
-- Inodes, 16 to a block from `inode_offset` on, and the pointers from a file to its blocks:
-- efs/inode.c and efs/include/inode.h.
pub mod Layout
pub mod Laws
use eaburns_sos.Prelude.{
  ℕ, zero, suc, ◌+◌, ◌-◌, ◌*◌, ◌/◌, ◌%◌, List, [], ◌∷◌, ◌++◌, Option, none, some, Bool, true, false,
  ◌==◌, ltb, leb, if◌then◌else◌, get_or, take, drop, replicate, u32,
}
use eaburns_sos.Efs.Device.{Device, block_size, read_block, write_block}
use eaburns_sos.Efs.Superblock.{Superblock, get_superblock, le32, bytes32, inode_len}
use eaburns_sos.Efs.Block.{
  Marked, marked, was_used, mark_failed, mark_out_of_bounds, Found, block, undefined,
  mark_block_used, find_free_block, data_to_real,
}

-- `struct inode`. The last name of each declaration alone is packed, so three bytes are left out
-- between `refs` and `data0`, and the struct has 64 bytes.
pub record Inode : Type 0 where
  pub size : ℕ
  pub refs : ℕ
  pub pad5 : ℕ
  pub pad6 : ℕ
  pub pad7 : ℕ
  pub data0 : ℕ
  pub data1 : ℕ
  pub data2 : ℕ
  pub data3 : ℕ
  pub data4 : ℕ
  pub indirect_data : ℕ
  pub double_indirect_data : ℕ
  pub flags : ℕ
  pub permission : ℕ
  pub uid : ℕ
  pub gid : ℕ
  pub access_time : ℕ
  pub mod_time : ℕ
  pub dev_info : ℕ

-- the inode in memory
unfoldable pub inode_bytes : Inode → List ℕ
inode_bytes i =
    bytes32 i.size
    ++ ((i.refs ∷ i.pad5 ∷ i.pad6 ∷ i.pad7 ∷ [])
        ++ (bytes32 i.data0
            ++ (bytes32 i.data1
                ++ (bytes32 i.data2
                    ++ (bytes32 i.data3
                        ++ (bytes32 i.data4
                            ++ (bytes32 i.indirect_data
                                ++ (bytes32 i.double_indirect_data
                                    ++ (bytes32 i.flags
                                        ++ (bytes32 i.permission
                                            ++ (bytes32 i.uid
                                                ++ (bytes32 i.gid
                                                    ++ (bytes32 i.access_time
                                                        ++ (bytes32 i.mod_time
                                                            ++ bytes32 i.dev_info))))))))))))))

unfoldable pub inode_of : List ℕ → Inode
inode_of b = record {
  size = le32 b 0;
  refs = get_or b 4 0;
  pad5 = get_or b 5 0;
  pad6 = get_or b 6 0;
  pad7 = get_or b 7 0;
  data0 = le32 b 8;
  data1 = le32 b 12;
  data2 = le32 b 16;
  data3 = le32 b 20;
  data4 = le32 b 24;
  indirect_data = le32 b 28;
  double_indirect_data = le32 b 32;
  flags = le32 b 36;
  permission = le32 b 40;
  uid = le32 b 44;
  gid = le32 b 48;
  access_time = le32 b 52;
  mod_time = le32 b 56;
  dev_info = le32 b 60;
}

-- `memcpy( b + o, xs, … )` into a buffer
abbrev pub copy_in : List ℕ → ℕ → List ℕ → List ℕ
copy_in [] o xs = []
copy_in (y ∷ b) (suc o) xs = y ∷ copy_in b o xs
copy_in (y ∷ b) zero [] = y ∷ b
copy_in (y ∷ b) zero (x ∷ xs) = x ∷ copy_in b zero xs

-- What `set_inode` gives: 0 with the image that it leaves, -1, or the end of the program.
pub data Stored (Image : Type 0) : Type 0 where
  stored : Image → Stored Image
  refused : Stored Image
  exits : Stored Image

-- the block of an inode, and the offset in it
abbrev pub inode_block : Superblock → ℕ → ℕ
inode_block sb num = u32 (num / (block_size / inode_len) + sb.inode_offset)

abbrev pub inode_place : ℕ → ℕ
inode_place num = num % (block_size / inode_len) * inode_len

module _ (dev : Device) where
  open dev use {Image}

  -- `num` is an `int` that is not negative.
  unfoldable pub set_inode : Image → (num : ℕ) → Inode → Stored Image
  set_inode d num new = elim (get_superblock dev d) [
    | none ↦ refused
    | some sb ↦
        if ltb sb.inode_count num then refused else elim (read_block dev d (inode_block sb num)) [
          | none ↦ exits
          | some b ↦
              elim (write_block dev d (inode_block sb num)
                (copy_in b (inode_place num) (inode_bytes new))) [
                  | none ↦ exits
                  | some d' ↦ stored d'
                ]
        ]
  ]

  unfoldable pub get_inode : Image → (num : ℕ) → Option Inode
  get_inode d num = elim (get_superblock dev d) [
    | none ↦ none
    | some sb ↦
        if ltb sb.inode_count num then none else elim (read_block dev d (inode_block sb num)) [
          | none ↦ none
          | some b ↦ some (inode_of (take inode_len (drop (inode_place num) b)))
        ]
  ]
