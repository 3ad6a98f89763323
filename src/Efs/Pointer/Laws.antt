-- ===== src/Efs/Pointer/Laws.antt =====
-- A pointer that is added to a file of at most five blocks is found.
use eaburns_sos.Prelude.{
  ℕ, ◌+◌, ◌/◌, ◌≤◌, ◌<◌, ◌≡◌, ◌≢◌, ◌∙◌, refl, sym, ap, arith, some, true, leb, ◌==◌, u32,
  if◌then◌else◌,
}
use eaburns_sos.Efs.Device.{Device}
use eaburns_sos.Efs.Superblock.{Superblock, get_superblock}
use eaburns_sos.Efs.Block.{data_to_real}
use eaburns_sos.Efs.Inode.{Inode, Stored, stored, refused, exits, set_inode, get_inode}
use eaburns_sos.Efs.Inode.Layout.{IsInode}
use eaburns_sos.Efs.Inode.Laws.{IsReachable, get_inode-set_inode}
use eaburns_sos.Efs.Pointer.{
  direct, set_direct, pointer, get_logical_block, Outcome, done, failed, ended, save_inode,
  add_to_inode, add_block_pointer,
}

-- 0 is turned into -1 as a uint32
abbrev pub real_or_error : ℕ → ℕ
real_or_error n = if n == 0 then 4294967295 else n

direct-set_direct : (i : Inode) (k n : ℕ) → k ≤ 4 → direct (set_direct i k n) k ≡ n
unfolding direct set_direct
direct-set_direct i k n h = ground arith

direct-set_direct_ne :
    (i : Inode) (k j n : ℕ) → k ≤ 4 → j ≤ 4 → j ≢ k → direct (set_direct i k n) j ≡ direct i j
unfolding direct set_direct
direct-set_direct_ne i k j n h g ne = ground arith

set_direct-IsInode : (i : Inode) (k n : ℕ) → IsInode i → n < 4294967296 → IsInode (set_direct i k n)
unfolding set_direct
set_direct-IsInode i k n ok h = ground arith

module _ (dev : Device) where
  open dev use {Image}

  saved_of :
      (d d' : Image) (r : Stored Image)
      → ◌≡◌ {A = Outcome Image Image}
          (elim r [ stored x ↦ done x | refused ↦ failed d | exits ↦ ended d ])
          (done d')
      → r ≡ stored d'
  saved_of d d' (stored x) e = ground (arith, e)
  saved_of d d' refused e = absurd (ground (arith, e))
  saved_of d d' exits e = absurd (ground (arith, e))

  saved :
      (d d' : Image) (num : ℕ) (i : Inode)
      → save_inode dev d num i ≡ done d'
      → set_inode dev d num i ≡ stored d'
  unfolding save_inode
  saved d d' num i e = saved_of d d' (set_inode dev d num i) e

  -- what a logical block of the first five is, on an image whose superblock is `sb`
  pub direct_block :
      (d : Image) (sb : Superblock) (i : Inode) (k : ℕ)
      → get_superblock dev d ≡ some sb
      → k ≤ 4
      → get_logical_block dev d i k ≡ some (real_or_error (u32 (direct i k + sb.data_offset)))
  unfolding get_logical_block pointer data_to_real
  direct_block d sb i k s h =
      let low : leb k 4 ≡ true = ground arith in
      let real : data_to_real dev d (direct i k) ≡ u32 (direct i k + sb.data_offset) =
        rw (s, data_to_real) refl in
      rw (low, get_logical_block, pointer) (rw s (rw real refl))

  -- Where `add_block_pointer` succeeds on a file of `k` blocks, `k` at most 4, and an inode whose fields
  -- are in range, the inode has the pointer in place `k`, the logical block `k` of the file is that
  -- data block, and the other logical blocks among the first five are what they were.
  pub add_block_pointer_lem :
      (d d' : Image) (sb : Superblock) (num n j : ℕ) (i : Inode)
      → get_superblock dev d ≡ some sb
      → IsReachable sb
      → get_inode dev d num ≡ some i
      → IsInode i
      → i.size / 1024 ≤ 4
      → n < 4294967296
      → j ≤ 4
      → j ≢ i.size / 1024
      → add_block_pointer dev d num n ≡ done d'
      → let i' = set_direct i (i.size / 1024) n in
        (get_inode dev d' num ≡ some i')
        × (get_logical_block dev d' i' (i.size / 1024)
            ≡ some (real_or_error (u32 (n + sb.data_offset))))
        × (get_logical_block dev d' i' j ≡ get_logical_block dev d i j)
  unfolding add_block_pointer add_to_inode
  add_block_pointer_lem d d' sb num n j i s reach g ok short small hj ne e =
      let k = i.size / 1024 in
      let i' = set_direct i k n in
      let low : leb k 4 ≡ true = ground arith in
      let st : set_inode dev d num i' ≡ stored d' =
        saved d d' num i' (rw low at (rw (g, add_block_pointer) at e)) in
      let back =
        get_inode-set_inode dev d d' sb num i' s reach st (set_direct-IsInode i k n ok small) in
      (
        back.1,
        direct_block d' sb i' k back.0 short
            ∙ ap (λ m. some (real_or_error (u32 (m + sb.data_offset))))
                (direct-set_direct i k n short),
        direct_block d' sb i' j back.0 hj
            ∙ ap (λ m. some (real_or_error (u32 (m + sb.data_offset))))
                (direct-set_direct_ne i k j n short hj ne)
            ∙ sym (direct_block d sb i j s hj),
      )
