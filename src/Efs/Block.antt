-- ===== src/Efs/Block.antt =====
-- The bitmap of the data blocks, in block 0 after the superblock: efs/block.c.
pub mod Laws
use eaburns_sos.Prelude.{
  ℕ, zero, suc, ◌+◌, ◌-◌, ◌*◌, ◌/◌, ◌%◌, ◌^◌, List, Option, none, some, Bool, not, ◌==◌, get_or,
  set, length, u32, u8, bit_and, bit_or, ltb, if◌then◌else◌,
}
use eaburns_sos.Efs.Device.{Device, read_block, write_block}
use eaburns_sos.Efs.Superblock.{get_superblock, bootcode_len, superblock_len}

-- the byte of block 0 that holds the bit of a block, and the mask of that bit
abbrev pub byte_of : ℕ → ℕ
byte_of n = superblock_len + bootcode_len + n / 8

abbrev pub mask_of : ℕ → ℕ
mask_of n = 2 ^ (7 - n % 8)

abbrev pub is_taken : List ℕ → ℕ → Bool
is_taken b n = not (bit_and (get_or b (byte_of n) 0) (mask_of n) == 0)

-- The byte with the bit of the block set.
abbrev pub with_bit : List ℕ → ℕ → List ℕ
with_bit b n = set b (byte_of n) (u8 (bit_or (get_or b (byte_of n) 0) (mask_of n)))

-- What `check_block` gives: 0, 1 or -1; the last is an access outside of the buffer.
pub data Checked : Type 0 where
  free : Checked
  used : Checked
  failed : Checked
  out_of_bounds : Checked

-- What `mark_block_used` gives: 0 with the image that it leaves, or as above.
pub data Marked (Image : Type 0) : Type 0 where
  marked : Image → Marked Image
  was_used : Marked Image
  mark_failed : Marked Image
  mark_out_of_bounds : Marked Image

-- What `find_free_block` gives: a block number, unless it reads outside of the buffer.
pub data Found : Type 0 where
  block : ℕ → Found
  undefined : Found

module _ (dev : Device) where
  open dev use {Image}

  unfoldable pub check_block : Image → (block_num : ℕ) → Checked
  check_block d n = elim (read_block dev d 0) [
    | none ↦ failed
    | some b ↦
        if ltb (byte_of n) (length b) then (if is_taken b n then used else free) else out_of_bounds
  ]

  unfoldable pub mark_block_used : Image → (block_num : ℕ) → Marked Image
  mark_block_used d n = elim (read_block dev d 0) [
    | none ↦ mark_failed
    | some b ↦
        if ltb (byte_of n) (length b)
        then (if is_taken b n then was_used else elim (write_block dev d 0 (with_bit b n)) [
          | none ↦ mark_failed
          | some d' ↦ marked d'
        ])
        else mark_out_of_bounds
  ]

  -- The loop of `find_free_block` at block `i`, with `k` blocks left.
  unfoldable pub find_from : Image → (i k : ℕ) → Found
  find_from d i zero = block 0
  find_from d i (suc k) =
      let rest = find_from d (i + 1) k in
      elim (check_block d i) [
        | free ↦ block i
        | used ↦ rest
        | failed ↦ rest
        | out_of_bounds ↦ undefined
      ]

  -- A failure is -1 as a uint32.
  unfoldable pub find_free_block : Image → Found
  find_free_block d = elim (get_superblock dev d) [
    | none ↦ block 4294967295
    | some sb ↦ find_from d 0 sb.data_count
  ]

  unfoldable pub data_to_real : Image → (datablk : ℕ) → ℕ
  data_to_real d n = elim (get_superblock dev d) [
    | none ↦ 4294967295
    | some sb ↦ u32 (n + sb.data_offset)
  ]
