-- ===== src/Alloc/Free.antt =====
-- `init_alloc`, and `free` on a heap that holds.
use mathlib.Core.Path.{subst, fun_ext}
use eaburns_sos.Prelude.{
  sym, ◌∙◌, ◌-◌, ℕ, ◌+◌, ◌≤◌, ◌<◌, ◌≡◌, ◌≢◌, refl, true, false, List, [], ◌∷◌, arith, ◌==◌,
  if◌then◌else◌, some, sub32, map, length, ret_failure, ret_success,
}
use eaburns_sos.Prelude.Chain.{null, has, erase, prev_of}
use eaburns_sos.Alloc.{
  Adjacent, find_adjacent, set_slot_next, set_slot_len, Region, free, free_found, release,
  unlink_used, init_alloc,
}
use eaburns_sos.Alloc.Cover.{map-frame, distinct, Links-distinct}
use eaburns_sos.Alloc.Inv.{coalesced, nexts, lens, Tiles, IsHeap, bounds, apart}
use eaburns_sos.Alloc.Steps.{Is, unlink_used-Is}
use eaburns_sos.Alloc.Unlink.{unlink_used-Links}
use eaburns_sos.Alloc.Scan.{Low, before_of, adjacent_of, find_used_lem, find_adjacent_lem}
use eaburns_sos.Alloc.Merge.{joined}
use eaburns_sos.Alloc.Release.{nobody, release-IsHeap, lens-release}

-- the free blocks after `f` is freed: `f` is merged with the free block that ends where it begins
-- and with the one that begins where it ends
abbrev pub freed : (len : ℕ → ℕ) → (f : ℕ) → List ℕ → List ℕ
freed len f fs = erase (f + 8 + len f) (joined f (before_of len f fs null) fs)

free_found_lem :
    (fuel : ℕ) (r : Region) (f j : ℕ) (s : Adjacent)
    → (f == null) ≡ false
    → find_adjacent fuel (unlink_used r j f) f null (unlink_used r j f).free_list nobody ≡ some s
    → free_found fuel r f j f ≡ some (ret_success, release (unlink_used r j f) f s)
unfolding free_found
free_found_lem fuel r f j s ne scanned = rw (ne, free_found) (rw scanned refl)

-- the two loops, for a used block
free_eq :
    (base total fuel : ℕ) (r : Region) (fs us : List ℕ) (f : ℕ)
    → IsHeap base total fs us r
    → length fs < fuel
    → length us < fuel
    → has f us ≡ true
    → let u = unlink_used r (prev_of f null us) f in
      free fuel r (f + 8) ≡ some (ret_success, release u f (adjacent_of (lens u) f null fs nobody))
unfolding free
free_eq base total fuel r fs us f heap ef eu used =
    let u = unlink_used r (prev_of f null us) f in
    let parts = unlink_used-Links base total r fs us f heap used in
    let b = bounds base total (lens r) fs us f heap.2 (ground arith) in
    let s = adjacent_of (lens u) f null fs nobody in
    let ends : f + 8 + lens r f < 4294967296 = omega (arith, heap.3) in
    let f_is : sub32 (f + 8) 8 ≡ f = ground (arith, heap.3) in
    let ne : f ≢ null = omega arith in
    let not_null : (f == null) ≡ false = ground arith in
    let found = find_used_lem fuel r f null r.used_list us ne heap.1 eu in
    let is = unlink_used-Is r (prev_of f null us) f in
    let low : Low (lens u) fs = λ a i.
      rw (is.3 a)
        (omega (arith, heap.3, bounds base total (lens r) fs us a heap.2 (ground arith))) in
    let scanned =
      find_adjacent_lem fuel u f null u.free_list nobody fs parts.0 ef low (rw (is.3 f) ends) in
    let rest = free_found_lem fuel r f (prev_of f null us) s not_null scanned in
    rw f_is (rw found (rw used rest))

-- Freeing the data of a used block of a heap that holds succeeds. The block leaves the used list, and
-- it is free, merged with the free blocks that touch it; the heap holds, and the blocks that stay
-- used keep their sizes.
pub free_lem :
    (base total fuel : ℕ) (r : Region) (fs us : List ℕ) (f : ℕ)
    → IsHeap base total fs us r
    → length fs < fuel
    → length us < fuel
    → has f us ≡ true
    → (r' : Region) × (free fuel r (f + 8) ≡ some (ret_success, r'))
      × IsHeap base total (freed (lens r) f fs) (erase f us) r'
      × (map (lens r') (erase f us) ≡ map (lens r) (erase f us))
free_lem base total fuel r fs us f heap ef eu used =
    let u = unlink_used r (prev_of f null us) f in
    let parts = unlink_used-Links base total r fs us f heap used in
    let same : lens u ≡ lens r = fun_ext (unlink_used-Is r (prev_of f null us) f).3 in
    let swapped : Tiles base total (lens r) us fs = λ x. omega (arith, heap.2 x) in
    let f_fs : has f fs ≡ false = apart base total (lens r) us fs swapped f used in
    let d : distinct (f ∷ fs) ≡ true =
      ground (arith, f_fs, Links-distinct (nexts r) r.free_list fs heap.0) in
    let b = bounds base total (lens r) fs us f heap.2 (ground arith) in
    let s = adjacent_of (lens u) f null fs nobody in
    let apart_free : coalesced (lens u) fs fs ≡ true =
      subst (λ l. coalesced l fs fs ≡ true) (sym same) heap.4 in
    let done =
      release-IsHeap base total u fs (erase f us) f parts.0 parts.1 parts.2 d heap.3 apart_free in
    let sizes = lens-release base total u fs (erase f us) f parts.0 parts.1 parts.2 d heap.3 in
    (
      release u f s,
      free_eq base total fuel r fs us f heap ef eu used,
      subst (λ l. IsHeap base total (freed l f fs) (erase f us) (release u f s)) same done,
      map-frame (lens r) (lens (release u f s)) (erase f us)
          (λ a i. sizes a i ∙ (unlink_used-Is r (prev_of f null us) f).3 a),
    )

-- On a heap that holds, freeing an address that is no used block's data and is not 8 fails and
-- changes nothing.
pub free_unused :
    (base total fuel : ℕ) (r : Region) (fs us : List ℕ) (a : ℕ)
    → IsHeap base total fs us r
    → length us < fuel
    → sub32 a 8 ≢ null
    → has (sub32 a 8) us ≡ false
    → free fuel r a ≡ some (ret_failure, r)
unfolding free free_found
free_unused base total fuel r fs us a heap enough ne out =
    let found = find_used_lem fuel r (sub32 a 8) null r.used_list us ne heap.1 enough in
    rw found (rw out refl)

init_alloc-Is :
    (base total : ℕ) (r : Region)
    → 16 ≤ total
    → base + total < 4294967296
    → ((init_alloc base total r).0 ≡ ret_success)
      × Is
          (init_alloc base total r).1
          (base + 8)
          null
          (λ a. if a == base + 8 then null else nexts r a)
          (λ a. if a == base + 8 then total - 16 else lens r a)
unfolding init_alloc set_slot_next set_slot_len
init_alloc-Is base total r big low = ground arith

one_block :
    (base total : ℕ) (len : ℕ → ℕ)
    → 16 ≤ total
    → len (base + 8) ≡ total - 16
    → Tiles base total len ((base + 8) ∷ []) []
one_block base total len big h x = ground arith

-- A region of 16 bytes or more that ends below 2 ^ 32 becomes a heap that holds, with one free block
-- and no used one.
pub init_alloc_lem :
    (base total : ℕ) (r : Region)
    → 16 ≤ total
    → base + total < 4294967296
    → ((init_alloc base total r).0 ≡ ret_success)
      × IsHeap base total ((base + 8) ∷ []) [] (init_alloc base total r).1
init_alloc_lem base total r big low =
    let is = init_alloc-Is base total r big low in
    (
      is.0,
      (
        (is.1.0, omega arith, refl, ground (arith, is.1.2 (base + 8))),
        is.1.1,
        one_block base total (lens (init_alloc base total r).1) big
            (ground (arith, is.1.3 (base + 8))),
        low,
        ground arith,
      ),
    )
