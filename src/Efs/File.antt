-- ===== src/Efs/File.antt =====
-- Files of the root directory: efs/efs.c from `new_file` on. An entry of the directory has 12 bytes for
-- a name and 4 for the number of an inode. A name is a list of bytes that ends at its first 0, or at
-- its end.
use eaburns_sos.Prelude.{
  ℕ, zero, suc, ◌+◌, ◌/◌, ◌%◌, List, [], ◌∷◌, Option, none, some, Bool, true, false, ◌||◌, ◌==◌,
  leb, if◌then◌else◌, get_or, drop, replicate, u32,
}
use eaburns_sos.Efs.Device.{Device, block_size, read_block, write_block}
use eaburns_sos.Efs.Superblock.{Superblock, get_superblock, le32, bytes32}
use eaburns_sos.Efs.Block.{data_to_real}
use eaburns_sos.Efs.Inode.{Inode, get_inode, copy_in}
use eaburns_sos.Efs.Pointer.{
  Outcome, done, failed, ended, crashes, ◌>>=◌, need, get_logical_block, save_inode,
  take_free_block, mark_block, add_block_pointer,
}

-- FILE_NAME_SIZE, and the length of an entry
abbrev pub file_name_size : ℕ
file_name_size = 12

abbrev pub entry_size : ℕ
entry_size = 16

-- `strncmp( a, b, n ) == 0`
abbrev pub same_name : ℕ → List ℕ → List ℕ → Bool
same_name zero a b = true
same_name (suc n) a b =
    let rest = same_name n (drop 1 a) (drop 1 b) in
    if get_or a 0 0 == get_or b 0 0 then get_or a 0 0 == 0 || rest else false

-- the bytes that `strncpy( …, a, n )` writes
abbrev pub padded_name : ℕ → List ℕ → List ℕ
padded_name zero a = []
padded_name (suc n) a =
    let rest = padded_name n (drop 1 a) in
    get_or a 0 0 ∷ (if get_or a 0 0 == 0 then replicate n 0 else rest)

-- The loop of `find_file` over the entries of a block, from byte `j` on, with `k` entries left.
unfoldable pub find_entry : (k : ℕ) → List ℕ → (name : List ℕ) → (j : ℕ) → Option ℕ
find_entry zero b name j = none
find_entry (suc k) b name j =
    let rest = find_entry k b name (j + entry_size) in
    if same_name file_name_size (drop j b) name then some (le32 b (j + file_name_size)) else rest

-- A new entry, at byte `o`.
abbrev pub with_entry : List ℕ → (o : ℕ) → (name : List ℕ) → (num : ℕ) → List ℕ
with_entry b o name num =
    copy_in (copy_in b o (padded_name 11 name)) (o + file_name_size) (bytes32 num)

module _ (dev : Device) where
  open dev use {Image}

  -- `get_logical_block` where 0 is an error
  unfoldable pub logical_block : Image → Inode → (lblock : ℕ) → Outcome Image ℕ
  logical_block d i lblock = elim (get_logical_block dev d i lblock) [
    | none ↦ crashes
    | some n ↦ if n == 0 then failed d else done n
  ]

  unfoldable pub entry_in : Image → List ℕ → (name : List ℕ) → Outcome Image ℕ → Outcome Image ℕ
  entry_in d b name rest = elim (find_entry 64 b name 0) [ none ↦ rest | some n ↦ done n ]

  -- The loop of `find_file` over the blocks of the directory, at block `i`, with `k` blocks left.
  unfoldable pub find_in_blocks : Image → Inode → (name : List ℕ) → (i k : ℕ) → Outcome Image ℕ
  find_in_blocks d root name i zero = failed d
  find_in_blocks d root name i (suc k) =
      let rest = find_in_blocks d root name (i + 1) k in
      logical_block d root i >>= λ n. need d (read_block dev d n) >>= λ b. entry_in d b name rest

  unfoldable pub find_file : Image → (name : List ℕ) → Outcome Image ℕ
  find_file d name = do
    root ← need d (get_inode dev d 0)
    find_in_blocks d root name 0 (suc (root.size / block_size))

  -- the write of the entry, within the block
  unfoldable pub write_entry :
      Image → Inode → (data_block : ℕ) → (name : List ℕ) → (num : ℕ) → Outcome Image Image
  write_entry d root data_block name num = do
    b ← need d (read_block dev d data_block)
    if leb (root.size % block_size + entry_size) block_size
        then need d (write_block dev d data_block (with_entry b (root.size % block_size) name num))
        else crashes

  unfoldable pub add_file : Image → (name : List ℕ) → (inode_num : ℕ) → Outcome Image Image
  add_file d name inode_num = do
    root ← need d (get_inode dev d 0)
    data_block ← logical_block d root (root.size / block_size)
    d1 ← write_entry d root data_block name inode_num
    save_inode dev d1 0 (record root { size = u32 (root.size + 16) })

  -- The loop of `new_file` over the inodes, at inode `i`, with `k` inodes left.
  unfoldable pub find_inode : Image → (i k : ℕ) → Outcome Image (ℕ × Inode)
  find_inode d i zero = failed d
  find_inode d i (suc k) =
      let rest = find_inode d (i + 1) k in
      need d (get_inode dev d i) >>= λ n. if n.refs == 0 then done (i, n) else rest

  unfoldable pub truncate : Image → (num : ℕ) → Outcome Image Image
  truncate d num = do i ← need d (get_inode dev d num); save_inode dev d num (record i { size = 0 })

  unfoldable pub create : Image → Superblock → (name : List ℕ) → Outcome Image Image
  create d sb name = do
    (num, i) ← find_inode d 0 sb.inode_count
    d1 ← add_file d name num
    save_inode dev d1 num (record i { refs = 1 })

  unfoldable pub new_file : Image → (name : List ℕ) → Outcome Image Image
  new_file d name = do
    sb ← need d (get_superblock dev d)
    elim (find_file d name) [
      | done num ↦ truncate d num
      | failed d' ↦ create d sb name
      | ended d' ↦ ended d'
      | crashes ↦ crashes
    ]

  -- The block on the disk, and the image; a failure is -1 as a uint32.
  unfoldable pub falloc_block : Image → (name : List ℕ) → Outcome Image (ℕ × Image)
  falloc_block d name = do
    sb ← need d (get_superblock dev d)
    num ← find_file d name
    b ← take_free_block dev d
    d1 ← mark_block dev d b
    d2 ← add_block_pointer dev d1 num b
    done (data_to_real dev d2 b, d2)
