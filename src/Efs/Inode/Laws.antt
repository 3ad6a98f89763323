-- ===== src/Efs/Inode/Laws.antt =====
-- Storing an inode and reading it back.
use eaburns_sos.Prelude.{
  ℕ, ◌+◌, ◌/◌, ◌≤◌, ◌<◌, ◌≡◌, ◌≢◌, ◌⊎◌, ◌∙◌, refl, sym, ap, arith, List, take, drop, length, inl,
  inr, Option, some, none, true, false, ltb, Bool-cases, Option-cases, Nat-cases,
}
use eaburns_sos.Efs.Device.{Device, read_block, write_block}
use eaburns_sos.Efs.Device.Laws.{read-write_block, read-write_block_ne, length-read_block}
use eaburns_sos.Efs.Superblock.{Superblock, get_superblock, inode_len}
use eaburns_sos.Efs.Inode.{
  Inode, stored, inode_bytes, inode_of, copy_in, inode_block, inode_place, set_inode, get_inode,
}
use eaburns_sos.Efs.Inode.Layout.{
  length-copy_in, take-drop-copy_in, take-drop-copy_in_apart, IsInode, length-inode_bytes,
  inode_of-inode_bytes,
}

-- The inode blocks come after block 0 and within reach of the offset of a read.
abbrev pub IsReachable : Superblock → Type 0
IsReachable sb = (1 ≤ sb.inode_offset) × (sb.inode_offset + sb.inode_count / 16 < 2097152)

pub inode_block_lem :
    (sb : Superblock) (m : ℕ)
    → IsReachable sb
    → m ≤ sb.inode_count
    → (1 ≤ inode_block sb m)
      × (inode_block sb m < 2097152)
      × (inode_block sb m ≡ m / 16 + sb.inode_offset)
inode_block_lem sb m (lo, hi) le =
    let small : m / 16 ≤ sb.inode_count / 16 = omega arith in
    (omega arith, omega arith, omega arith)

module _ (dev : Device) where
  open dev use {Image}

  -- what a store has done
  set_inode_inv :
      (d d' : Image) (sb : Superblock) (num : ℕ) (new : Inode)
      → get_superblock dev d ≡ some sb
      → set_inode dev d num new ≡ stored d'
      → (b : List ℕ) × (ltb sb.inode_count num ≡ false)
        × (read_block dev d (inode_block sb num) ≡ some b)
        × (write_block dev d (inode_block sb num) (copy_in b (inode_place num) (inode_bytes new))
            ≡ some d')
  unfolding set_inode
  set_inode_inv d d' sb num new s e =
      let k = inode_block sb num in
      elim (Bool-cases (ltb sb.inode_count num)) [
        | inl c ↦ absurd (ground (arith, rw c at (rw (s, set_inode) at e)))
        | inr c ↦ elim (Option-cases (read_block dev d k)) [
          | inl r ↦ absurd (ground (arith, rw r at (rw c at (rw (s, set_inode) at e))))
          | inr (b, r) ↦
              let new_block = copy_in b (inode_place num) (inode_bytes new) in
              elim (Option-cases (write_block dev d k new_block)) [
                | inl w ↦
                    absurd (ground (arith, rw w at (rw r at (rw c at (rw (s, set_inode) at e)))))
                | inr (d'', w) ↦
                    let same : d'' ≡ d' =
                      ground (arith, rw w at (rw r at (rw c at (rw (s, set_inode) at e)))) in
                    (b, c, r, rw same at w)
              ]
        ]
      ]

  -- what is read of a block that holds the inode
  abbrev pub inode_in : (num : ℕ) → Option (List ℕ) → Option Inode
  inode_in num none = none
  inode_in num (some b) = some (inode_of (take inode_len (drop (inode_place num) b)))

  get_inode-none :
      (d : Image) (sb : Superblock) (num : ℕ)
      → get_superblock dev d ≡ some sb
      → ltb sb.inode_count num ≡ true
      → get_inode dev d num ≡ none
  unfolding get_inode
  get_inode-none d sb num s c = rw (s, get_inode) (rw c refl)

  pub get_inode_read :
      (d : Image) (sb : Superblock) (num : ℕ)
      → get_superblock dev d ≡ some sb
      → ltb sb.inode_count num ≡ false
      → get_inode dev d num ≡ inode_in num (read_block dev d (inode_block sb num))
  unfolding get_inode
  get_inode_read d sb num s c = elim (Option-cases (read_block dev d (inode_block sb num))) [
    | inl r ↦ rw (s, get_inode) (rw c (rw r refl))
    | inr (b, r) ↦ rw (s, get_inode) (rw c (rw r refl))
  ]

  module _ (d d' : Image) (sb : Superblock) (num : ℕ) (new : Inode)
      (s : get_superblock dev d ≡ some sb) (reach : IsReachable sb)
      (e : set_inode dev d num new ≡ stored d') where
    abbrev parts :
        (b : List ℕ) × (ltb sb.inode_count num ≡ false)
        × (read_block dev d (inode_block sb num) ≡ some b)
        × (write_block dev d (inode_block sb num) (copy_in b (inode_place num) (inode_bytes new))
            ≡ some d')
    parts = set_inode_inv d d' sb num new s e

    abbrev old_block : List ℕ
    old_block = parts.0

    abbrev new_block : List ℕ
    new_block = copy_in old_block (inode_place num) (inode_bytes new)

    range :
        (m : ℕ)
        → ltb sb.inode_count m ≡ false
        → (1 ≤ inode_block sb m)
          × (inode_block sb m < 2097152)
          × (inode_block sb m ≡ m / 16 + sb.inode_offset)
    range m c = let le : m ≤ sb.inode_count = ground arith in inode_block_lem sb m reach le

    full : length old_block ≡ 1024
    full = length-read_block dev d (inode_block sb num) old_block (range num parts.1).1 parts.2

    length-new_block : length new_block ≡ 1024
    length-new_block = length-copy_in old_block (inode_place num) (inode_bytes new) ∙ full

    read_new : read_block dev d' (inode_block sb num) ≡ some new_block
    read_new =
        read-write_block dev d d' (inode_block sb num) new_block (range num parts.1).1
          length-new_block parts.3

    -- The other blocks of the device stay.
    pub read_other :
        (k : ℕ) → k < 2097152 → inode_block sb num ≢ k → read_block dev d' k ≡ read_block dev d k
    read_other k h ne =
        read-write_block_ne dev d d' (inode_block sb num) k new_block (range num parts.1).1 h ne
          length-new_block parts.3

    pub set_inode_superblock : get_superblock dev d' ≡ some sb
    unfolding get_superblock
    set_inode_superblock =
        rw (read_other 0 (omega arith) (omega (arith, range num parts.1)), get_superblock) s

    -- Where `set_inode` stores an inode whose fields are in range, on an image whose inode blocks come
    -- after block 0 and within reach of a read, `get_inode` gives it back, and the superblock stays.
    pub get_inode-set_inode :
        IsInode new → (get_superblock dev d' ≡ some sb) × (get_inode dev d' num ≡ some new)
    get_inode-set_inode ok =
        let same : take inode_len (drop (inode_place num) new_block) ≡ inode_bytes new =
          rw (length-inode_bytes new) at (
            take-drop-copy_in old_block (inode_place num) (inode_bytes new)
              (omega (arith, full, length-inode_bytes new))) in
        (
          set_inode_superblock,
          get_inode_read d' sb num set_inode_superblock parts.1
              ∙ ap (inode_in num) read_new
              ∙ ap some (ap inode_of same ∙ inode_of-inode_bytes new ok),
        )

    -- Where `set_inode` stores an inode on such an image, the inode of any other number stays.
    pub get_inode-set_inode_ne : (m : ℕ) → m ≢ num → get_inode dev d' m ≡ get_inode dev d m
    get_inode-set_inode_ne m ne = elim (Bool-cases (ltb sb.inode_count m)) [
      | inl c ↦ get_inode-none d' sb m set_inode_superblock c ∙ sym (get_inode-none d sb m s c)
      | inr c ↦
          let k = inode_block sb m in
          let after = get_inode_read d' sb m set_inode_superblock c in
          let before = get_inode_read d sb m s c in
          elim (Nat-cases (inode_block sb num) k) [
            | inr other ↦ after ∙ ap (inode_in m) (read_other k (range m c).1 other) ∙ sym before
            | inl here ↦
                let row : num / 16 ≡ m / 16 = omega (arith, here, range m c, range num parts.1) in
                let place : (inode_place m + 64 ≤ inode_place num)
                    ⊎ (inode_place num + 64 ≤ inode_place m) =
                  omega (arith, row, ne) in
                let same : take inode_len (drop (inode_place m) new_block)
                    ≡ take inode_len (drop (inode_place m) old_block) =
                  take-drop-copy_in_apart 64 (inode_place m) old_block (inode_place num)
                    (inode_bytes new) (omega (arith, place, length-inode_bytes new)) in
                let new_is : read_block dev d' k ≡ some new_block = rw here at read_new in
                let old_is : read_block dev d k ≡ some old_block = rw here at parts.2 in
                after
                ∙ ap (inode_in m) new_is
                ∙ ap (λ l. some (inode_of l)) same
                ∙ sym (before ∙ ap (inode_in m) old_is)
          ]
    ]
