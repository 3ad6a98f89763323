-- ===== src/Efs/Tools.antt =====
-- The programs that make a file system and write files to it: efs/writeefs.c, and efs/mkefs.c after
-- `create_superblock`. What `read` gives of the host's file is a list of the blocks that it returns,
-- none of them empty; an error of `read` is left out.
pub mod Laws
use eaburns_sos.Prelude.{
  ℕ, zero, suc, ◌+◌, ◌-◌, List, [], ◌∷◌, ◌++◌, Option, none, some, ◌==◌, if◌then◌else◌, length,
  replicate, u32,
}
use eaburns_sos.Efs.Device.{Device, block_size, write_block}
use eaburns_sos.Efs.Superblock.{Superblock, create_superblock}
use eaburns_sos.Efs.Block.{
  Marked, marked, was_used, mark_failed, mark_out_of_bounds, mark_block_used,
}
use eaburns_sos.Efs.Inode.{Inode, Stored, stored, refused, exits, get_inode, set_inode}
use eaburns_sos.Efs.Pointer.{Outcome, done, failed, ended, crashes, ◌>>=◌, need, save_inode}
use eaburns_sos.Efs.File.{find_file, new_file, falloc_block, padded_name}

-- what stands after the last '/', if there is one
abbrev pub after_slash : List ℕ → Option (List ℕ)
after_slash [] = none
after_slash (x ∷ xs) = elim (after_slash xs) [
  | some t ↦ some t
  | none ↦ if x == b'/' then some xs else none
]

abbrev pub base_name : List ℕ → List ℕ
base_name path = elim (after_slash path) [ none ↦ path | some t ↦ t ]

-- `f_name`: the last of its 12 bytes is never written, so what it holds is a parameter.
abbrev pub f_name : (path : List ℕ) → (last : ℕ) → List ℕ
f_name path last = padded_name 11 (base_name path) ++ (last ∷ [])

abbrev pub empty_inode : Inode
empty_inode = record {
  size = 0;
  refs = 0;
  pad5 = 0;
  pad6 = 0;
  pad7 = 0;
  data0 = 0;
  data1 = 0;
  data2 = 0;
  data3 = 0;
  data4 = 0;
  indirect_data = 0;
  double_indirect_data = 0;
  flags = 0;
  permission = 0;
  uid = 0;
  gid = 0;
  access_time = 0;
  mod_time = 0;
  dev_info = 0;
}

-- The inode of the root directory, and its block: "." with inode 0.
abbrev pub root_inode : Inode
root_inode = record empty_inode { size = 16; refs = 1; data0 = 0 }

abbrev pub root_block : List ℕ
root_block = b'.' ∷ replicate 1023 0

module _ (dev : Device) where
  open dev use {Image}

  -- `read_write` allocates without looking for -1: it goes on with the block 2 ^ 32 - 1.
  unfoldable pub allocated : Outcome Image (ℕ × Image) → Outcome Image (ℕ × Image)
  allocated (done a) = done a
  allocated (failed d) = done (4294967295, d)
  allocated (ended d) = ended d
  allocated crashes = crashes

  -- the write of one block of the host's file, with a failure of `falloc_block` taken for 0
  unfoldable pub write_data : Image → (n : ℕ) → List ℕ → Outcome Image Image
  write_data d n c =
      if n == 0
      then failed d
      else need d (write_block dev d n (c ++ replicate (block_size - length c) 0))

  unfoldable pub write_chunk : Image → (name : List ℕ) → List ℕ → Outcome Image Image
  write_chunk d name c = do
    (n, d1) ← allocated (falloc_block dev d name)
    d2 ← write_data d1 n c
    num ← find_file dev d2 name
    i ← need d2 (get_inode dev d2 num)
    save_inode dev d2 num (record i { size = u32 (i.size + length c) })

  unfoldable pub write_chunks : Image → (name : List ℕ) → List (List ℕ) → Outcome Image Image
  write_chunks d name [] = done d
  write_chunks d name (c ∷ cs) = write_chunk d name c >>= λ d'. write_chunks d' name cs

  -- `chunks` is `none` where the host's file cannot be opened.
  unfoldable pub read_write :
      Image → (path : List ℕ) → (last : ℕ) → Option (List (List ℕ)) → Outcome Image Image
  read_write d path last chunks = do
    d1 ← new_file dev d (f_name path last)
    cs ← need d1 chunks
    write_chunks d1 (f_name path last) cs

  -- a write whose result is not looked at
  unfoldable pub write_unseen : Image → (n : ℕ) → List ℕ → Image
  write_unseen d n b = elim (write_block dev d n b) [ none ↦ d | some d' ↦ d' ]

  -- The loop of `create_inodeblocks` at block `i`, with `k` blocks left.
  unfoldable pub clear_from : Image → (i k : ℕ) → Image
  clear_from d i zero = d
  clear_from d i (suc k) = clear_from (write_unseen d i (replicate block_size 0)) (i + 1) k

  -- `sb` is what the freed superblock holds when it is read.
  unfoldable pub create_inodeblocks : Image → (sb : Superblock) → Image
  create_inodeblocks d sb = clear_from d sb.inode_offset (sb.data_offset - sb.inode_offset)

  -- the inode of the root directory, with -1 left unseen
  unfoldable pub store_root : Image → Outcome Image Image
  store_root d = elim (set_inode dev d 0 root_inode) [
    | stored d' ↦ done d'
    | refused ↦ done d
    | exits ↦ ended d
  ]

  unfoldable pub mark_root : Image → Outcome Image Image
  mark_root d = elim (mark_block_used dev d 0) [
    | marked d' ↦ done d'
    | was_used ↦ ended d
    | mark_failed ↦ ended d
    | mark_out_of_bounds ↦ crashes
  ]

  -- `sb` is what the freed superblock holds when it is read, of which only `data_offset` is.
  unfoldable pub create_rootdir : Image → (sb : Superblock) → Outcome Image Image
  create_rootdir d sb = store_root (write_unseen d sb.data_offset root_block) >>= mark_root

  -- `create_superblock`, whose write may fail unseen, and the other two steps of `main`
  unfoldable pub make_efs : Image → (block_count : ℕ) → (sb : Superblock) → Outcome Image Image
  make_efs d block_count sb =
      let d1 : Image = elim (create_superblock dev d block_count) [ none ↦ d | some d' ↦ d' ] in
      create_rootdir (create_inodeblocks d1 sb) sb
