-- ===== src/Alloc.antt =====
-- The heap of a memory region: kernel/alloc.c and kernel/include/alloc.h, and the kernel's own heap
-- on top of it, kernel/lib/kalloc.c. A region begins with two pointers, the heads of the free list
-- and of the used list, and each block with an `alloc_slot_t`; a pointer is its address, and NULL
-- is 0. The headers are kept by the address of their block, so what a program writes into its own
-- block is outside the model. A loop over a list runs on fuel; `none` means that the fuel ran out.
pub mod Cover
pub mod Inv
pub mod Steps
pub mod Unlink
pub mod Carve
pub mod Take
pub mod Scan
pub mod Merge
pub mod Coalesce
pub mod Release
pub mod Free
pub mod Kalloc
pub mod Client
mod Tests
use eaburns_sos.Prelude.{
  ℕ, zero, suc, ◌+◌, ◌-◌, ◌%◌, Bool, true, false, not, ◌&&◌, ◌||◌, Option, none, some, ltb, ◌==◌,
  if◌then◌else◌, u32, sub32, ReturnCode, ret_failure, ret_success, ◌>>=◌,
}
use eaburns_sos.Prelude.Chain.{null}

-- `alloc_slot_t`
pub record Slot : Type 0 where
  pub next : ℕ
  pub len : ℕ

-- A_FREELIST and A_USEDLIST of a base address, and the headers in memory.
pub record Region : Type 0 where
  pub free_list : ℕ
  pub used_list : ℕ
  pub slot : ℕ → Slot

-- `p->next = q`
unfoldable pub set_slot_next : Region → ℕ → ℕ → Region
set_slot_next r p q = record r {
  slot = λ a. if a == p then record (r.slot p) { next = q } else r.slot a;
}

-- `p->len = n`
unfoldable pub set_slot_len : Region → ℕ → ℕ → Region
set_slot_len r p n = record r {
  slot = λ a. if a == p then record (r.slot p) { len = n } else r.slot a;
}

-- sizeof(void*) is 4 and sizeof(alloc_slot_t) is 8.
unfoldable pub init_alloc : (base length : ℕ) → Region → ReturnCode × Region
init_alloc base length r =
    if ltb length 8
    then (ret_failure, r)
    else let elem = u32 (base + 8) in
      let r1 = set_slot_next (record r { used_list = null }) elem null in
      let r2 = set_slot_len r1 elem (sub32 (sub32 length 8) 8) in
      (ret_success, record r2 { free_list = elem })

-- the size made divisible by sizeof(void*)
unfoldable pub round_up : ℕ → ℕ
round_up size = if size % 4 == 0 then size else u32 (size + (4 - size % 4))

-- the loop of `alloc`, with the last `j` and `p`
unfoldable pub find_fit : ℕ → Region → (size j p : ℕ) → Option (ℕ × ℕ)
find_fit zero r size j p = none
find_fit (suc fuel) r size j p =
    let rest = find_fit fuel r size p (r.slot p).next in
    if p == null || not (ltb (r.slot p).len (u32 (size + 8))) then some (j, p) else rest

-- A block leaves the free list, or the used list, where `j` is the block before it.
unfoldable pub unlink_free : Region → (j p : ℕ) → Region
unlink_free r j p =
    if j == null
    then record r { free_list = (r.slot r.free_list).next }
    else set_slot_next r j (r.slot p).next

unfoldable pub unlink_used : Region → (j p : ℕ) → Region
unlink_used r j p =
    if j == null
    then record r { used_list = (r.slot r.used_list).next }
    else set_slot_next r j (r.slot p).next

-- The rest of a block that is larger than desired becomes a free block.
unfoldable pub split : Region → (p size : ℕ) → Region
split r p size =
    if ltb (r.slot p).len (u32 (size + 8))
    then r
    else let k = u32 (p + 8 + size) in
      let r1 = set_slot_next r k r.free_list in
      let r2 = set_slot_len r1 k (sub32 (sub32 (r1.slot p).len size) 8) in
      set_slot_len (record r2 { free_list = k }) p size

unfoldable pub push_used : Region → ℕ → Region
push_used r p = record (set_slot_next r p r.used_list) { used_list = p }

unfoldable pub push_free : Region → ℕ → Region
push_free r f = record (set_slot_next r f r.free_list) { free_list = f }

-- `alloc` from the block it found
unfoldable pub take_block : Region → (size j p : ℕ) → ℕ × Region
take_block r size j p =
    if p == null then (null, r) else (u32 (p + 8), push_used (split (unlink_free r j p) p size) p)

unfoldable pub alloc : ℕ → Region → ℕ → Option (ℕ × Region)
alloc fuel r size = do
  (j, p) ← find_fit fuel r (round_up size) null r.free_list
  some (take_block r (round_up size) j p)

-- `for( j = NULL, p = A_USEDLIST(base); p != NULL && p != f; j = p, p = p->next );`
unfoldable pub find_used : ℕ → Region → (f j p : ℕ) → Option (ℕ × ℕ)
find_used zero r f j p = none
find_used (suc fuel) r f j p =
    let rest = find_used fuel r f p (r.slot p).next in
    if p == null || p == f then some (j, p) else rest

-- A_BLOCK_END
unfoldable pub block_end : Region → ℕ → ℕ
block_end r x = u32 (x + 8 + (r.slot x).len)

-- `before`, `after` and `after_prev`
pub record Adjacent : Type 0 where
  pub before : ℕ
  pub after : ℕ
  pub after_prev : ℕ

-- the body of the loop that looks for the free neighbours of `f`
unfoldable pub look : Region → (f j p : ℕ) → Adjacent → Adjacent
look r f j p s =
    if block_end r p == f
    then record s { before = p }
    else if block_end r f == p
    then record s { after = p; after_prev = j }
    else s

unfoldable pub find_adjacent : ℕ → Region → (f j p : ℕ) → Adjacent → Option Adjacent
find_adjacent zero r f j p s = none
find_adjacent (suc fuel) r f j p s =
    let rest = find_adjacent fuel r f p (r.slot p).next (look r f j p s) in
    if p == null then some s else rest

-- `f` is merged into the free block before it, if there is one.
unfoldable pub merge_before : Region → (f : ℕ) → Adjacent → Region
merge_before r f s =
    if s.before == null
    then r
    else set_slot_len r s.before (u32 ((r.slot s.before).len + (8 + (r.slot f).len)))

-- the block that `f` stands for from then on
unfoldable pub merged : (f : ℕ) → Adjacent → ℕ
merged f s = if s.before == null then f else s.before

-- The free block after `f`, if there is one, is merged into `f` and leaves the free list.
unfoldable pub merge_after : Region → (f : ℕ) → Adjacent → Region
merge_after r f s =
    if s.after == null
    then r
    else let r1 = set_slot_len r f (u32 ((r.slot f).len + (8 + (r.slot s.after).len))) in
      unlink_free r1 s.after_prev s.after

-- `free_add` is set where `f` was not merged into the block before it.
unfoldable pub add_free : Region → (f : ℕ) → Adjacent → Region
add_free r f s = if s.before == null then push_free r f else r

-- `f` has left the used list and goes back to the free blocks.
unfoldable pub release : Region → (f : ℕ) → Adjacent → Region
release r f s = let g = merged f s in add_free (merge_after (merge_before r f s) g s) g s

-- `free` from what it found on the used list
unfoldable pub free_found : ℕ → Region → (f j p : ℕ) → Option (ReturnCode × Region)
free_found fuel r f j p = elim (p == null) [
  | true ↦ some (ret_failure, r)
  | false ↦
      let r1 = unlink_used r j p in
      find_adjacent fuel r1 f null r1.free_list
        (record { before = null; after = null; after_prev = null })
      >>= λ s. some (ret_success, release r1 f s)
]

unfoldable pub free : ℕ → Region → ℕ → Option (ReturnCode × Region)
free fuel r a = do
  (j, p) ← find_used fuel r (sub32 a 8) null r.used_list
  free_found fuel r (sub32 a 8) j p
