-- ===== src/Efs/Tools/Laws.antt =====
-- The root directory of a new file system.
use eaburns_sos.Prelude.{
  Option, ◌||◌, zero, suc, get_or, drop, ◌==◌, if◌then◌else◌, Bool-cases, ℕ, ◌+◌, ◌≤◌, ◌<◌, ◌≡◌,
  ◌≢◌, ◌∙◌, refl, sym, ap, arith, List, [], ◌∷◌, some, none, false, length, u32, replicate, inl,
  inr, Option-cases, ltb,
}
use eaburns_sos.Efs.Device.{Device, read_block, write_block}
use eaburns_sos.Efs.Device.Laws.{read-write_block, read-write_block_ne}
use eaburns_sos.Efs.Superblock.{le32, Superblock, get_superblock}
use eaburns_sos.Efs.Block.{
  used, check_block, Marked, marked, was_used, mark_failed, mark_out_of_bounds, mark_block_used,
}
use eaburns_sos.Efs.Block.Laws.{mark_block_used_lem, mark_block_used_read}
use eaburns_sos.Efs.Inode.{
  copy_in, inode_place, inode_bytes, Inode, Stored, stored, refused, exits, get_inode, set_inode,
  inode_block,
}
use eaburns_sos.Efs.Inode.Layout.{IsInode}
use eaburns_sos.Efs.Inode.Laws.{
  inode_block_lem, IsReachable, get_inode-set_inode, read_other, get_inode_read, inode_in,
}
use eaburns_sos.Efs.Pointer.{
  direct, Outcome, done, failed, ended, crashes, ◌>>=◌, get_logical_block,
}
use eaburns_sos.Efs.Pointer.Laws.{direct_block, real_or_error}
use eaburns_sos.Efs.File.{find_entry, same_name, find_file, find_in_blocks, logical_block, entry_in}
use eaburns_sos.Efs.Tools.{
  root_inode, root_block, create_rootdir, store_root, mark_root, write_unseen,
}

-- The block of the directory comes after the first block of inodes and within reach.
abbrev pub HasRoot : Superblock → Type 0
HasRoot sb = (sb.inode_offset < sb.data_offset) × (sb.data_offset < 2097152)

get_or-drop : (b : List ℕ) (j d : ℕ) → get_or (drop j b) 0 d ≡ get_or b j d
get_or-drop [] zero d = refl
get_or-drop [] (suc j) d = refl
get_or-drop (x ∷ b) zero d = refl
get_or-drop (x ∷ b) (suc j) d = get_or-drop b j d

get_or-zeros : (n i : ℕ) → ◌≡◌ {A = ℕ} (get_or (replicate n 0) i 0) 0
get_or-zeros zero i = refl
get_or-zeros (suc n) zero = refl
get_or-zeros (suc n) (suc i) = get_or-zeros n i

-- A cleared entry has no name.
find_entry_cleared :
    (k : ℕ) (b name : List ℕ) (j : ℕ)
    → get_or name 0 0 ≢ 0
    → 1 ≤ j
    → ((i : ℕ) → 1 ≤ i → get_or b i 0 ≡ 0)
    → find_entry k b name j ≡ none
unfolding find_entry
find_entry_cleared zero b name j ne lo clear = refl
find_entry_cleared (suc k) b name j ne lo clear =
    let first : get_or (drop j b) 0 0 ≡ 0 = get_or-drop b j 0 ∙ clear j lo in
    let other : (0 == get_or name 0 0) ≡ false = ground arith in
    rw (first) (rw other (find_entry_cleared k b name (j + 16) ne (omega arith) clear))

-- The first cleared entry is found under the empty name.
find_entry_empty :
    (k : ℕ) (b name : List ℕ) (j : ℕ)
    → get_or name 0 0 ≡ 0
    → 1 ≤ j
    → ((i : ℕ) → 1 ≤ i → get_or b i 0 ≡ 0)
    → find_entry (suc k) b name j ≡ some 0
unfolding find_entry
find_entry_empty k b name j empty lo clear =
    let first : get_or (drop j b) 0 0 ≡ 0 = get_or-drop b j 0 ∙ clear j lo in
    let num : le32 b (j + 12) ≡ 0 = rw (clear (j + 12) (omega arith)) (
      rw (clear (j + 12 + 1) (omega arith))
        (rw (clear (j + 12 + 2) (omega arith)) (rw (clear (j + 12 + 3) (omega arith)) refl))) in
    rw first (rw empty (rw num refl))

find_entry_first :
    (k : ℕ) (b name : List ℕ) (r : Option ℕ)
    → ((i : ℕ) → 1 ≤ i → get_or b i 0 ≡ 0)
    → find_entry k b name 16 ≡ r
    → find_entry (suc k) b name 0 ≡ (if same_name 12 b name then some 0 else r)
unfolding find_entry
find_entry_first k b name r clear rest =
    let num : le32 b 12 ≡ 0 = rw (clear 12 (omega arith)) (
      rw (clear 13 (omega arith))
        (rw (clear 14 (omega arith)) (rw (clear 15 (omega arith)) refl))) in
    rw rest (rw num refl)

root_cleared : (i : ℕ) → 1 ≤ i → get_or root_block i 0 ≡ 0
root_cleared zero lo = absurd (omega arith)
root_cleared (suc i) lo = get_or-zeros 1023 i

module _ (dev : Device) where
  open dev use {Image}

  marked_of :
      (d d' : Image) (m : Marked Image)
      → ◌≡◌ {A = Outcome Image Image}
          (elim m [
            | marked x ↦ done x
            | was_used ↦ ended d
            | mark_failed ↦ ended d
            | mark_out_of_bounds ↦ crashes
          ])
          (done d')
      → m ≡ marked d'
  marked_of d d' (marked x) e = ground (arith, e)
  marked_of d d' was_used e = absurd (ground (arith, e))
  marked_of d d' mark_failed e = absurd (ground (arith, e))
  marked_of d d' mark_out_of_bounds e = absurd (ground (arith, e))

  root_logical :
      (d : Image) (sb : Superblock)
      → get_superblock dev d ≡ some sb
      → 1 ≤ sb.data_offset
      → sb.data_offset < 2097152
      → logical_block dev d root_inode 0 ≡ done sb.data_offset
  unfolding logical_block direct
  root_logical d sb s lo hi =
      let real : real_or_error (u32 (0 + sb.data_offset)) ≡ sb.data_offset = ground arith in
      let eq = direct_block dev d sb root_inode 0 s (omega arith) in
      let some_block : get_logical_block dev d root_inode 0 ≡ some sb.data_offset =
        eq ∙ ap some real in
      let ne : (sb.data_offset == 0) ≡ false = ground arith in
      rw (some_block, logical_block) (rw ne refl)

  -- what `find_file` gives for a name, from the root inode and the block of the directory
  find_file_eq :
      (d : Image) (sb : Superblock) (name b : List ℕ)
      → get_superblock dev d ≡ some sb
      → 1 ≤ sb.data_offset
      → sb.data_offset < 2097152
      → get_inode dev d 0 ≡ some root_inode
      → read_block dev d sb.data_offset ≡ some b
      → find_file dev d name ≡ entry_in dev d b name (failed d)
  unfolding find_file find_in_blocks
  find_file_eq d sb name b s lo hi g r =
      let l = root_logical d sb s lo hi in rw (g, find_file) (rw (l, find_in_blocks) (rw r refl))

  find_root :
      (d : Image) (b name : List ℕ)
      → ((i : ℕ) → 1 ≤ i → get_or b i 0 ≡ 0)
      → entry_in dev d b name (failed d)
        ≡ (if same_name 12 b name || (get_or name 0 0 == 0) then done 0 else failed d)
  unfolding entry_in
  find_root d b name clear = elim (Bool-cases (get_or name 0 0 == 0)) [
    | inl empty ↦
        let one =
          find_entry_first 63 b name (some 0) clear
            (find_entry_empty 62 b name 16 (ground arith) (omega arith) clear) in
        elim (Bool-cases (same_name 12 b name)) [
          | inl t ↦
              let found : find_entry 64 b name 0 ≡ some 0 = rw t at one in
              rw (found, entry_in) (rw t refl)
          | inr f ↦
              let found : find_entry 64 b name 0 ≡ some 0 = rw f at one in
              rw (found, entry_in) (rw f (rw empty refl))
        ]
    | inr named ↦
        let one =
          find_entry_first 63 b name none clear
            (find_entry_cleared 63 b name 16 (λ e. absurd (ground arith)) (omega arith) clear) in
        elim (Bool-cases (same_name 12 b name)) [
          | inl t ↦
              let found : find_entry 64 b name 0 ≡ some 0 = rw t at one in
              rw (found, entry_in) (rw t refl)
          | inr f ↦
              let absent : find_entry 64 b name 0 ≡ none = rw f at one in
              rw (absent, entry_in) (rw f (rw named refl))
        ]
  ]

  stored_of :
      (d d' : Image) (r : Stored Image)
      → r ≢ refused
      → ◌≡◌ {A = Outcome Image Image}
          ((elim r as (λ x. Outcome Image Image) [
            | stored x ↦ done x
            | refused ↦ done d
            | exits ↦ ended d
          ])
            >>= mark_root dev)
          (done d')
      → (d2 : Image) × (r ≡ stored d2) × (mark_root dev d2 ≡ done d')
  stored_of d d' (stored x) ok e = (x, refl, e)
  stored_of d d' refused ok e = absurd (ok refl)
  stored_of d d' exits ok e = absurd (ground (arith, e))

  -- With the superblock read, `set_inode` is not refused.
  not_refused :
      (d : Image) (sb : Superblock) (i : Inode)
      → get_superblock dev d ≡ some sb
      → set_inode dev d 0 i ≢ refused
  unfolding set_inode
  not_refused d sb i s e =
      let in_range : ltb sb.inode_count 0 ≡ false = ground arith in
      let k = inode_block sb 0 in
      elim (Option-cases (read_block dev d k)) [
        | inl r ↦ absurd (ground (arith, rw r at (rw in_range at (rw (s, set_inode) at e))))
        | inr (b, r) ↦
            let new_block = copy_in b (inode_place 0) (inode_bytes i) in
            elim (Option-cases (write_block dev d k new_block)) [
              | inl w ↦
                  absurd
                    (ground (arith, rw w at (rw r at (rw in_range at (rw (s, set_inode) at e)))))
              | inr (x, w) ↦
                  absurd
                    (ground (arith, rw w at (rw r at (rw in_range at (rw (s, set_inode) at e)))))
            ]
      ]

  superblock_kept :
      (d d' : Image) (sb : Superblock)
      → read_block dev d' 0 ≡ read_block dev d 0
      → get_superblock dev d ≡ some sb
      → get_superblock dev d' ≡ some sb
  unfolding get_superblock
  superblock_kept d d' sb same s = rw (same, get_superblock) s

  -- the steps of `create_rootdir`
  rootdir_steps :
      (d d1 d' : Image) (sb : Superblock)
      → get_superblock dev d1 ≡ some sb
      → write_block dev d sb.data_offset root_block ≡ some d1
      → create_rootdir dev d sb ≡ done d'
      → (d2 : Image) × (set_inode dev d1 0 root_inode ≡ stored d2)
        × (mark_block_used dev d2 0 ≡ marked d')
  unfolding create_rootdir store_root write_unseen mark_root
  rootdir_steps d d1 d' sb s w e =
      let step =
        stored_of d1 d' (set_inode dev d1 0 root_inode) (not_refused d1 sb root_inode s)
          (rw (w, write_unseen) at e) in
      (step.0, step.1, marked_of step.0 d' (mark_block_used dev step.0 0) step.2)

  -- Only the data offset of the freed superblock matters.
  create_rootdir_offset :
      (d : Image) (freed sb : Superblock)
      → freed.data_offset ≡ sb.data_offset
      → create_rootdir dev d freed ≡ create_rootdir dev d sb
  unfolding create_rootdir
  create_rootdir_offset d freed sb same =
      ap (λ n. store_root dev (write_unseen dev d n root_block) >>= mark_root dev) same

  -- Where `create_rootdir` ends well on a file system whose root block was written, and the freed struct
  -- still has the data offset of the superblock that is on the disk, the inode 0 is the root inode, the superblock
  -- stays, block 0 is in use, and `find_file` finds "." and the empty name, both with inode 0, and no
  -- other name.
  pub create_rootdir_lem :
      (d d1 d' : Image) (sb freed : Superblock) (name : List ℕ)
      → get_superblock dev d ≡ some sb
      → IsReachable sb
      → HasRoot sb
      → freed.data_offset ≡ sb.data_offset
      → write_block dev d sb.data_offset root_block ≡ some d1
      → create_rootdir dev d freed ≡ done d'
      → (get_superblock dev d' ≡ some sb)
        × (check_block dev d' 0 ≡ used)
        × (get_inode dev d' 0 ≡ some root_inode)
        × (find_file dev d' name ≡ (
            if same_name 12 root_block name || (get_or name 0 0 == 0) then done 0 else failed d'))
  create_rootdir_lem d d1 d' sb freed name s reach root same w ends =
      let e = sym (create_rootdir_offset d freed sb same) ∙ ends in
      let k = inode_block_lem sb 0 reach (omega arith) in
      let full : length root_block ≡ 1024 = refl in
      let s1 =
        superblock_kept d d1 sb
          (read-write_block_ne dev d d1 sb.data_offset 0 root_block root.1 (omega arith)
            (omega (arith, root.0)) full w)
          s in
      let steps = rootdir_steps d d1 d' sb s1 w e in
      let d2 = steps.0 in
      let ok : IsInode root_inode = ground arith in
      let back = get_inode-set_inode dev d1 d2 sb 0 root_inode s1 reach steps.1 ok in
      let s' : get_superblock dev d' ≡ some sb =
        (mark_block_used_lem dev d2 d' 0 0 (omega arith) (omega arith) steps.2).2 ∙ back.0 in
      let inodes : read_block dev d' (inode_block sb 0) ≡ read_block dev d2 (inode_block sb 0) =
        mark_block_used_read dev d2 d' 0 (inode_block sb 0) (omega arith) k.0 k.1 steps.2 in
      let in_range : ltb sb.inode_count 0 ≡ false = ground arith in
      let g : get_inode dev d' 0 ≡ some root_inode =
        get_inode_read dev d' sb 0 s' in_range
        ∙ ap (inode_in dev 0) inodes
        ∙ sym (get_inode_read dev d2 sb 0 back.0 in_range)
        ∙ back.1 in
      let r : read_block dev d' sb.data_offset ≡ some root_block =
        mark_block_used_read dev d2 d' 0 sb.data_offset (omega arith) (omega (arith, root.0)) root.1
          steps.2
        ∙ read_other dev d1 d2 sb 0 root_inode s1 reach steps.1 sb.data_offset root.1
            (omega (arith, root.0, k.2))
        ∙ read-write_block dev d d1 sb.data_offset root_block root.1 full w in
      (
        s',
        (mark_block_used_lem dev d2 d' 0 0 (omega arith) (omega arith) steps.2).1,
        g,
        find_file_eq d' sb name root_block s' (omega (arith, root.0)) root.1 g r
            ∙ find_root d' root_block name root_cleared,
      )
