-- ===== src/Efs/Tests.antt =====
-- A file system of 20 blocks in memory, made by `create_superblock` on a cleared device.
use eaburns_sos.Prelude.{ℕ, ◌+◌, ◌≤◌, ◌<◌, ◌≡◌, ◌⊎◌, refl, arith, some, true}
use eaburns_sos.Efs.Device.{read_block, write_block}
use eaburns_sos.Efs.Disk.{Bytes, memory_device, overwrite, slice}
use eaburns_sos.Efs.Superblock.{
  fresh_superblock, block_of, get_superblock, create_superblock, validate_efs,
}
use eaburns_sos.Efs.Superblock.Laws.{create_superblock_lem}
use eaburns_sos.Efs.Block.{
  free, used, block, check_block, mark_block_used, with_bit, find_free_block,
}
use eaburns_sos.Efs.Block.Laws.{mark_block_used_lem, find_free_block_lem}

abbrev cleared : Bytes
cleared = λ x. 0

abbrev made : Bytes
unfolding block_of fresh_superblock
made = overwrite cleared 0 (block_of (fresh_superblock 20))

create_example :
    (get_superblock memory_device made ≡ some (fresh_superblock 20))
    × ((fresh_superblock 20).data_offset + (fresh_superblock 20).data_count ≡ 20)
    × (validate_efs memory_device made ≡ some true)
unfolding create_superblock write_block block_of fresh_superblock
create_example =
    create_superblock_lem memory_device cleared made 20 (omega arith) (omega arith) refl

abbrev three_marked : Bytes
unfolding block_of fresh_superblock
three_marked = overwrite made 0 (with_bit (slice made 0 1024) 3)

mark_example :
    (check_block memory_device made 3 ≡ free)
    × (check_block memory_device three_marked 3 ≡ used)
    × (get_superblock memory_device three_marked ≡ get_superblock memory_device made)
unfolding mark_block_used read_block write_block block_of fresh_superblock
mark_example =
    mark_block_used_lem memory_device made three_marked 3 3 (omega arith) (omega arith) refl

find_example :
    ((n : ℕ) × (find_free_block memory_device made ≡ block n)
      × (n < 15)
      × (check_block memory_device made n ≡ free)
      × ((n ≤ 4) ⊎ (check_block memory_device made 4 ≡ used)))
    ⊎ ((find_free_block memory_device made ≡ block 0) × (check_block memory_device made 4 ≡ used))
unfolding fresh_superblock
find_example =
    find_free_block_lem memory_device made (fresh_superblock 20) 4 create_example.0 (omega arith)
      (omega arith)
