-- ===== src/Efs/FileTests.antt =====
-- Inodes, pointers and the root directory on the file system of 20 blocks in memory.
use eaburns_sos.Prelude.{◌≡◌, refl, arith, some, [], ◌∷◌}
use eaburns_sos.Efs.Device.{read_block, write_block}
use eaburns_sos.Efs.Disk.{Bytes, memory_device, overwrite, slice}
use eaburns_sos.Efs.Superblock.{
  fresh_superblock, block_of, superblock_of, create_superblock, get_superblock,
}
use eaburns_sos.Efs.Superblock.Laws.{create_superblock_lem}
use eaburns_sos.Efs.Inode.{Inode, stored, set_inode, get_inode, copy_in, inode_bytes, inode_of}
use eaburns_sos.Efs.Inode.Laws.{IsReachable, get_inode-set_inode, get_inode-set_inode_ne}
use eaburns_sos.Efs.Block.{used, check_block, with_bit, mark_block_used}
use eaburns_sos.Efs.Pointer.{
  done, set_direct, get_logical_block, save_inode, add_to_inode, add_block_pointer,
}
use eaburns_sos.Efs.Pointer.Laws.{add_block_pointer_lem}
use eaburns_sos.Efs.File.{find_file}
use eaburns_sos.Efs.Tools.{
  root_inode, root_block, create_rootdir, store_root, mark_root, write_unseen,
}
use eaburns_sos.Efs.Tools.Laws.{create_rootdir_lem}

abbrev cleared : Bytes
cleared = λ x. 0

abbrev made : Bytes
unfolding block_of fresh_superblock
made = overwrite cleared 0 (block_of (fresh_superblock 20))

made_superblock : get_superblock memory_device made ≡ some (fresh_superblock 20)
unfolding create_superblock write_block block_of fresh_superblock
made_superblock =
    (create_superblock_lem memory_device cleared made 20 (omega arith) (omega arith) refl).0

abbrev stored_root : Bytes
stored_root = overwrite made 1024 (copy_in (slice made 1024 1024) 192 (inode_bytes root_inode))

stores : set_inode memory_device made 3 root_inode ≡ stored stored_root
unfolding set_inode get_superblock read_block write_block superblock_of block_of fresh_superblock
stores = refl

reachable : IsReachable (fresh_superblock 20)
unfolding fresh_superblock
reachable = (omega arith, omega arith)

set_inode_example :
    (get_superblock memory_device stored_root ≡ some (fresh_superblock 20))
    × (get_inode memory_device stored_root 3 ≡ some root_inode)
set_inode_example =
    get_inode-set_inode memory_device made stored_root (fresh_superblock 20) 3 root_inode
      made_superblock reachable stores (ground arith)

set_inode_ne_example : get_inode memory_device stored_root 2 ≡ get_inode memory_device made 2
set_inode_ne_example =
    get_inode-set_inode_ne memory_device made stored_root (fresh_superblock 20) 3 root_inode
      made_superblock reachable stores 2 (omega arith)

abbrev with_pointer : Inode
with_pointer = record root_inode { data0 = 7 }

abbrev pointed : Bytes
pointed =
    overwrite stored_root 1024
      (copy_in (slice stored_root 1024 1024) 192 (inode_bytes with_pointer))

kept_superblock : get_superblock memory_device stored_root ≡ some (fresh_superblock 20)
kept_superblock =
    (get_inode-set_inode memory_device made stored_root (fresh_superblock 20) 3 root_inode
      made_superblock reachable stores (ground arith)).0

kept_inode : get_inode memory_device stored_root 3 ≡ some root_inode
kept_inode =
    (get_inode-set_inode memory_device made stored_root (fresh_superblock 20) 3 root_inode
      made_superblock reachable stores (ground arith)).1

points_to : add_block_pointer memory_device stored_root 3 7 ≡ done pointed
unfolding add_block_pointer add_to_inode save_inode set_direct set_inode get_inode get_superblock
    read_block write_block superblock_of block_of fresh_superblock inode_of inode_bytes
points_to = refl

add_block_pointer_example :
    (get_inode memory_device pointed 3 ≡ some (set_direct root_inode 0 7))
    × (get_logical_block memory_device pointed (set_direct root_inode 0 7) 0 ≡ some 12)
    × (get_logical_block memory_device pointed (set_direct root_inode 0 7) 2
        ≡ get_logical_block memory_device stored_root root_inode 2)
unfolding fresh_superblock
add_block_pointer_example =
    add_block_pointer_lem memory_device stored_root pointed (fresh_superblock 20) 3 7 2 root_inode
      kept_superblock reachable kept_inode (ground arith) (omega arith) (omega arith) (omega arith)
      (omega arith) points_to

abbrev with_block : Bytes
with_block = overwrite made 5120 root_block

abbrev with_root : Bytes
with_root =
    overwrite with_block 1024 (copy_in (slice with_block 1024 1024) 0 (inode_bytes root_inode))

abbrev complete : Bytes
complete = overwrite with_root 0 (with_bit (slice with_root 0 1024) 0)

completes : create_rootdir memory_device made (fresh_superblock 20) ≡ done complete
unfolding create_rootdir store_root mark_root write_unseen mark_block_used set_inode get_superblock
    read_block write_block superblock_of block_of fresh_superblock inode_bytes
completes = refl

create_rootdir_example :
    (get_superblock memory_device complete ≡ some (fresh_superblock 20))
    × (check_block memory_device complete 0 ≡ used)
    × (get_inode memory_device complete 0 ≡ some root_inode)
    × (find_file memory_device complete (b'.' ∷ []) ≡ done 0)
unfolding write_block fresh_superblock
create_rootdir_example =
    create_rootdir_lem memory_device made with_block complete (fresh_superblock 20)
      (fresh_superblock 20) (b'.' ∷ []) made_superblock reachable (omega arith, omega arith) refl
      refl completes
