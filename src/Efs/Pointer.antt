-- ===== src/Efs/Pointer.antt =====
-- The pointers from a file to its blocks: `get_logical_block` and `add_block_pointer` of efs/inode.c.
pub mod Laws
use eaburns_sos.Prelude.{
  ℕ, zero, suc, ◌+◌, ◌-◌, ◌*◌, ◌/◌, ◌%◌, List, [], ◌∷◌, ◌++◌, Option, none, some, Bool, true, false,
  ◌==◌, ltb, leb, if◌then◌else◌, get_or, take, drop, replicate, u32,
}
use eaburns_sos.Efs.Device.{Device, block_size, read_block, write_block}
use eaburns_sos.Efs.Superblock.{Superblock, get_superblock, le32, bytes32, inode_len}
use eaburns_sos.Efs.Block.{
  Marked, marked, was_used, mark_failed, mark_out_of_bounds, Found, block, undefined,
  mark_block_used, find_free_block, data_to_real,
}
use eaburns_sos.Efs.Inode.{Inode, Stored, stored, refused, exits, set_inode, get_inode, copy_in}

-- The pointers of a block of pointers are INDIRECT_POINTERS many.
abbrev pub indirect_pointers : ℕ
indirect_pointers = 256

-- What a pointer is found to be: a data block, a block of pointers that cannot be read, or an access
-- outside of the buffer.
pub data Pointer : Type 0 where
  points : ℕ → Pointer
  unreadable : Pointer
  outside : Pointer

-- the two `switch` statements over the direct pointers
unfoldable pub direct : Inode → ℕ → ℕ
direct i k =
    if k == 0
    then i.data0
    else if k == 1
    then i.data1
    else if k == 2
    then i.data2
    else if k == 3
    then i.data3
    else i.data4

unfoldable pub set_direct : Inode → (k n : ℕ) → Inode
set_direct i k n =
    if k == 0
    then record i { data0 = n }
    else if k == 1
    then record i { data1 = n }
    else if k == 2
    then record i { data2 = n }
    else if k == 3
    then record i { data3 = n }
    else record i { data4 = n }

-- the word `k` of a block of pointers
unfoldable pub pointer_at : List ℕ → ℕ → Pointer
pointer_at b k = if ltb k indirect_pointers then points (le32 b (4 * k)) else outside

-- What a function that changes the image gives: its value, -1 with the image that it leaves, the end of
-- the program, or an access outside of a buffer.
pub data Outcome (Image A : Type 0) : Type 0 where
  done : A → Outcome Image A
  failed : Image → Outcome Image A
  ended : Image → Outcome Image A
  crashes : Outcome Image A

infixl 5 ◌>>=◌
abbrev pub ◌>>=◌ : {Image A B : Type 0} → Outcome Image A → (A → Outcome Image B) → Outcome Image B
done a >>= f = f a
failed d >>= f = failed d
ended d >>= f = ended d
crashes >>= f = crashes

-- a step that gives -1 and leaves the image if there is no value
abbrev pub need : {Image A : Type 0} → Image → Option A → Outcome Image A
need d none = failed d
need d (some a) = done a

module _ (dev : Device) where
  open dev use {Image}

  -- `data_block` of `get_logical_block`
  unfoldable pub pointer : Image → Inode → (lblock : ℕ) → Pointer
  pointer d i lblock =
      if leb lblock 4
      then points (direct i lblock)
      else if leb lblock indirect_pointers
      then elim (read_block dev d i.indirect_data) [
        | none ↦ unreadable
        | some b ↦ pointer_at b (lblock - 5)
      ]
      else elim (read_block dev d i.double_indirect_data) [
        | none ↦ unreadable
        | some b ↦ elim (pointer_at b ((lblock - indirect_pointers) / indirect_pointers)) [
          | unreadable ↦ unreadable
          | outside ↦ outside
          | points k ↦ elim (read_block dev d k) [
            | none ↦ unreadable
            | some b' ↦ pointer_at b' (lblock - 5)
          ]
        ]
      ]

  -- A failure is 0, or -1 as a uint32; `none` is an access outside of the buffer.
  unfoldable pub get_logical_block : Image → Inode → (lblock : ℕ) → Option ℕ
  get_logical_block d i lblock = elim (pointer d i lblock) [
    | unreadable ↦ some 0
    | outside ↦ none
    | points n ↦ elim (get_superblock dev d) [
      | none ↦ some 4294967295
      | some sb ↦ some (if data_to_real dev d n == 0 then 4294967295 else data_to_real dev d n)
    ]
  ]

  -- `set_inode`, with -1 passed on
  unfoldable pub save_inode : Image → (num : ℕ) → Inode → Outcome Image Image
  save_inode d num i = elim (set_inode dev d num i) [
    | stored d' ↦ done d'
    | refused ↦ failed d
    | exits ↦ ended d
  ]

  -- `find_free_block`, where 0 is that there is none
  unfoldable pub take_free_block : Image → Outcome Image ℕ
  take_free_block d = elim (find_free_block dev d) [
    | undefined ↦ crashes
    | block n ↦ if n == 0 then failed d else done n
  ]

  -- `mark_block_used`, of which only -1 counts as an error
  unfoldable pub mark_block : Image → ℕ → Outcome Image Image
  mark_block d n = elim (mark_block_used dev d n) [
    | marked d' ↦ done d'
    | was_used ↦ done d
    | mark_failed ↦ failed d
    | mark_out_of_bounds ↦ crashes
  ]

  -- The inode gets a block of pointers, which is cleared.
  unfoldable pub add_indirect : Image → (num : ℕ) → Inode → Outcome Image (Image × Inode)
  add_indirect d num i = do
    tmp ← take_free_block d
    d1 ← mark_block d tmp
    sb ← need d1 (get_superblock dev d1)
    d2 ← save_inode d1 num (record i { indirect_data = tmp })
    d3 ← need d2 (write_block dev d2 (data_to_real dev d2 tmp) (replicate block_size 0))
    done (d3, record i { indirect_data = tmp })

  -- a pointer in the block of pointers; the index is within the block
  unfoldable pub set_indirect : Image → Inode → (next_block block_num : ℕ) → Outcome Image Image
  set_indirect d i next_block block_num = do
    b ← need d (read_block dev d (data_to_real dev d i.indirect_data))
    need d (
        write_block dev d (data_to_real dev d i.indirect_data)
          (copy_in b (4 * (next_block - 5)) (bytes32 block_num)))

  -- the two steps of the branch of the indirect pointers
  unfoldable pub add_through_indirect :
      Image → (num : ℕ) → Inode → (next_block block_num : ℕ) → Outcome Image Image
  add_through_indirect d num i next_block block_num = do
    (d1, i1) ← (if i.indirect_data == 0 then add_indirect d num i else done (d, i))
    set_indirect d1 i1 next_block block_num

  -- A file that is too long for the block of pointers gets no pointer, and that counts as a success.
  unfoldable pub add_to_inode :
      Image → (num : ℕ) → Inode → (next_block block_num : ℕ) → Outcome Image Image
  add_to_inode d num i next_block block_num =
      if leb next_block 4
      then save_inode d num (set_direct i next_block block_num)
      else if leb next_block indirect_pointers
      then add_through_indirect d num i next_block block_num
      else done d

  unfoldable pub add_block_pointer : Image → (inode_num block_num : ℕ) → Outcome Image Image
  add_block_pointer d inode_num block_num = do
    i ← need d (get_inode dev d inode_num)
    add_to_inode d inode_num i (i.size / block_size) block_num
