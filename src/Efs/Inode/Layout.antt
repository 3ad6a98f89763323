-- ===== src/Efs/Inode/Layout.antt =====
-- An inode in a buffer.
use eaburns_sos.Prelude.{
  ℕ, zero, suc, ◌+◌, ◌≤◌, ◌<◌, ◌≡◌, ◌⊎◌, refl, ap, arith, List, [], ◌∷◌, take, drop, length,
}
use eaburns_sos.Efs.Superblock.Laws.{le32-bytes}
use eaburns_sos.Efs.Inode.{Inode, inode_bytes, inode_of, copy_in}

pub length-copy_in : (b : List ℕ) (o : ℕ) (xs : List ℕ) → length (copy_in b o xs) ≡ length b
length-copy_in [] o xs = refl
length-copy_in (y ∷ b) (suc o) xs = ap suc (length-copy_in b o xs)
length-copy_in (y ∷ b) zero [] = refl
length-copy_in (y ∷ b) zero (x ∷ xs) = ap suc (length-copy_in b zero xs)

-- What was copied into a buffer is there.
pub take-drop-copy_in :
    (b : List ℕ) (o : ℕ) (xs : List ℕ)
    → o + length xs ≤ length b
    → take (length xs) (drop o (copy_in b o xs)) ≡ xs
take-drop-copy_in [] zero [] h = refl
take-drop-copy_in [] zero (x ∷ xs) h = absurd (omega arith)
take-drop-copy_in [] (suc o) xs h = absurd (omega arith)
take-drop-copy_in (y ∷ b) (suc o) xs h = take-drop-copy_in b o xs (omega arith)
take-drop-copy_in (y ∷ b) zero [] h = refl
take-drop-copy_in (y ∷ b) zero (x ∷ xs) h =
    ap (λ t. x ∷ t) (take-drop-copy_in b zero xs (omega arith))

-- The rest of the buffer stays.
pub take-drop-copy_in_apart :
    (k m : ℕ) (b : List ℕ) (o : ℕ) (xs : List ℕ)
    → (m + k ≤ o) ⊎ (o + length xs ≤ m)
    → take k (drop m (copy_in b o xs)) ≡ take k (drop m b)
take-drop-copy_in_apart k m [] o xs h = refl
take-drop-copy_in_apart k (suc m) (y ∷ b) (suc o) xs h =
    take-drop-copy_in_apart k m b o xs (omega arith)
take-drop-copy_in_apart zero zero (y ∷ b) o xs h = refl
take-drop-copy_in_apart (suc k) zero (y ∷ b) (suc o) xs h =
    ap (λ t. y ∷ t) (take-drop-copy_in_apart k zero b o xs (omega arith))
take-drop-copy_in_apart k m (y ∷ b) zero [] h = refl
take-drop-copy_in_apart (suc k) zero (y ∷ b) zero (x ∷ xs) h = absurd (omega arith)
take-drop-copy_in_apart k (suc m) (y ∷ b) zero (x ∷ xs) h =
    take-drop-copy_in_apart k m b zero xs (omega arith)

-- The fields of 32 bits are in range.
abbrev pub IsInode : Inode → Type 0
IsInode i =
    (i.size < 4294967296)
    × (i.data0 < 4294967296)
    × (i.data1 < 4294967296)
    × (i.data2 < 4294967296)
    × (i.data3 < 4294967296)
    × (i.data4 < 4294967296)
    × (i.indirect_data < 4294967296)
    × (i.double_indirect_data < 4294967296)
    × (i.flags < 4294967296)
    × (i.permission < 4294967296)
    × (i.uid < 4294967296)
    × (i.gid < 4294967296)
    × (i.access_time < 4294967296)
    × (i.mod_time < 4294967296)
    × (i.dev_info < 4294967296)

pub length-inode_bytes : (i : Inode) → length (inode_bytes i) ≡ 64
unfolding inode_bytes
length-inode_bytes i = refl

pub inode_of-inode_bytes : (i : Inode) → IsInode i → inode_of (inode_bytes i) ≡ i
unfolding inode_bytes inode_of
inode_of-inode_bytes i (s, a, b, c, d, e, ind, dbl, f, p, u, g, t, m, v) =
    rw (le32-bytes i.size s) (
      rw (le32-bytes i.data0 a) (
        rw (le32-bytes i.data1 b) (
          rw (le32-bytes i.data2 c) (
            rw (le32-bytes i.data3 d) (
              rw (le32-bytes i.data4 e) (
                rw (le32-bytes i.indirect_data ind) (
                  rw (le32-bytes i.double_indirect_data dbl) (
                    rw (le32-bytes i.flags f) (
                      rw (le32-bytes i.permission p) (
                        rw (le32-bytes i.uid u) (
                          rw (le32-bytes i.gid g) (
                            rw (le32-bytes i.access_time t) (
                              rw (le32-bytes i.mod_time m)
                                (rw (le32-bytes i.dev_info v) refl))))))))))))))
