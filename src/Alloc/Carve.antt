-- ===== src/Alloc/Carve.antt =====
-- What carving a used block out of a free one leaves of a heap.
use mathlib.Core.Path.{subst}
use eaburns_sos.Prelude.{
  map, sym, ℕ, ◌+◌, ◌-◌, ◌≤◌, ◌<◌, ◌≡◌, true, false, List, ◌∷◌, arith, ◌==◌, if◌then◌else◌,
}
use eaburns_sos.Prelude.Chain.{
  null, has, erase, prev_of, Links, Links-push, Links-push, not-has-erase,
}
use eaburns_sos.Alloc.{Region, unlink_free, split, push_used}
use eaburns_sos.Alloc.Steps.{Is, unlink_free-Is, split-Is, push_used-Is}
use eaburns_sos.Alloc.Unlink.{unlink_free-Links}
use eaburns_sos.Alloc.Cover.{
  map-frame, Links-distinct, inside, cover-frame, cover-erase, ne-has, inside_first,
  not-has-distinct,
}
use eaburns_sos.Alloc.Coalesce.{coalesced-carve}
use eaburns_sos.Alloc.Inv.{bounds, nexts, lens, Tiles, IsHeap, apart_free, apart_used}

inside-split :
    (l m : ℕ → ℕ) (p s x : ℕ)
    → s + 8 ≤ l p
    → m p ≡ s
    → m (p + 8 + s) ≡ l p - (s + 8)
    → inside m (p + 8 + s) x + inside m p x ≡ inside l p x
inside-split l m p s x room mp mk = ground arith

-- The block that `alloc` takes and the rest of it are in none of the other lists.
carve_fresh :
    (base size : ℕ) (l n : ℕ → ℕ) (h : ℕ) (fs us : List ℕ) (p s : ℕ)
    → Tiles base size l fs us
    → Links n h fs
    → has p fs ≡ true
    → s + 8 ≤ l p
    → (has (p + 8 + s) (erase p fs) ≡ false)
      × (has (p + 8 + s) us ≡ false)
      × (has p (erase p fs) ≡ false)
      × (has p us ≡ false)
carve_fresh base size l n h fs us p s tiles c hp room =
    let k = p + 8 + s in
    let in_k : inside l p k ≡ 1 = ground arith in
    (
      not-has-erase k p fs (apart_free base size l fs us p k tiles hp (ground arith) in_k),
      apart_used base size l fs us p k tiles hp in_k,
      not-has-distinct p fs (Links-distinct n h fs c),
      apart_used base size l fs us p p tiles hp (inside_first l p),
    )

-- A step that changes `p` and `k` alone spares a list without them.
spared :
    (l m : ℕ → ℕ) (p k : ℕ) (xs : List ℕ)
    → ((a : ℕ) → (a == p) ≡ false → (a == k) ≡ false → m a ≡ l a)
    → has k xs ≡ false
    → has p xs ≡ false
    → (a : ℕ) → has a xs ≡ true
    → m a ≡ l a
spared l m p k xs same hk hp a i = same a (ne-has p a xs hp i) (ne-has k a xs hk i)

take_Tiles :
    (base size : ℕ) (l m n : ℕ → ℕ) (h : ℕ) (fs us : List ℕ) (p s : ℕ)
    → Tiles base size l fs us
    → Links n h fs
    → has p fs ≡ true
    → s + 8 ≤ l p
    → ((a : ℕ) → m a ≡ (if a == p then s else if a == p + 8 + s then l p - (s + 8) else l a))
    → Tiles base size m ((p + 8 + s) ∷ erase p fs) (p ∷ us)
take_Tiles base size l m n h fs us p s tiles c hp room step x =
    let k = p + 8 + s in
    let new = carve_fresh base size l n h fs us p s tiles c hp room in
    let same : (a : ℕ) → (a == p) ≡ false → (a == k) ≡ false → m a ≡ l a =
      λ a e f. ground (arith, step a) in
    let free = cover-frame l m (erase p fs) x (spared l m p k (erase p fs) same new.0 new.2) in
    let used = cover-frame l m us x (spared l m p k us same new.1 new.3) in
    let both =
      inside-split l m p s x room (ground (arith, step p)) (ground (arith, step (p + 8 + s))) in
    omega (arith, tiles x, cover-erase l p fs x hp, both, free, used)

-- the region after `size` bytes of the free block `p` are allocated, where `j` stands before `p`
abbrev pub carved : Region → (s j p : ℕ) → Region
carved r s j p = push_used (split (unlink_free r j p) p s) p

carved-Is :
    (r : Region) (s j p : ℕ)
    → s + 8 ≤ lens r p
    → p + 8 + lens r p < 4294967296
    → let u = unlink_free r j p in
      Is
        (carved r s j p)
        (p + 8 + s)
        p
        (λ a. if a == p then r.used_list else if a == p + 8 + s then u.free_list else nexts u a)
        (λ a. if a == p then s else if a == p + 8 + s then lens r p - (s + 8) else lens r a)
carved-Is r s j p room low =
    let u = unlink_free r j p in
    let u_is = unlink_free-Is r j p in
    let v = split u p s in
    let lp : lens u p ≡ lens r p = u_is.3 p in
    let v_is = split-Is u p s (rw lp room) (rw lp low) in
    let w_is = push_used-Is v p in
    (
      ground arith,
      ground arith,
      λ a. ground (arith, w_is.2 a, v_is.2 a),
      λ a. ground (arith, w_is.3 a, v_is.3 a, u_is.3 a),
    )

pub carved-IsHeap :
    (base size : ℕ) (r : Region) (fs us : List ℕ) (p s : ℕ)
    → IsHeap base size fs us r
    → has p fs ≡ true
    → s + 8 ≤ lens r p
    → IsHeap base size ((p + 8 + s) ∷ erase p fs) (p ∷ us) (carved r s (prev_of p null fs) p)
carved-IsHeap base size r fs us p s (cf, cu, tiles, low, merged) hp room =
    let u = unlink_free r (prev_of p null fs) p in
    let w = carved r s (prev_of p null fs) p in
    let k = p + 8 + s in
    let b = bounds base size (lens r) fs us p tiles (ground arith) in
    let links = unlink_free-Links base size r fs us p (cf, cu, tiles, low, merged) hp in
    let is = carved-Is r s (prev_of p null fs) p room (omega arith) in
    let new = carve_fresh base size (lens r) (nexts r) r.free_list fs us p s tiles cf hp room in
    let same : (a : ℕ) → (a == p) ≡ false → (a == k) ≡ false → nexts w a ≡ nexts u a =
      λ a e f. ground (arith, is.2 a) in
    let free : Links (nexts w) k (k ∷ erase p fs) =
      Links-push (nexts u) (nexts w) k u.free_list (erase p fs) links.0 (omega arith) new.0
        (ground (arith, is.2 k)) (spared (nexts u) (nexts w) p k (erase p fs) same new.0 new.2) in
    let used : Links (nexts w) p (p ∷ us) =
      Links-push (nexts u) (nexts w) p u.used_list us links.1 (omega arith) new.3
        (ground (arith, is.2 p, (unlink_free-Is r (prev_of p null fs) p).1))
        (spared (nexts u) (nexts w) p k us same new.1 new.3) in
    (
      subst (λ h. Links (nexts w) h (k ∷ erase p fs)) (sym is.0) free,
      subst (λ h. Links (nexts w) h (p ∷ us)) (sym is.1) used,
      take_Tiles base size (lens r) (lens w) (nexts r) r.free_list fs us p s tiles cf hp room is.3,
      low,
      coalesced-carve base size (lens r) (lens w) fs us p s tiles merged
          (Links-distinct (nexts r) r.free_list fs cf) hp room is.3,
    )

-- The used blocks keep their sizes.
pub carved_used :
    (base size : ℕ) (r : Region) (fs us : List ℕ) (p s : ℕ)
    → IsHeap base size fs us r
    → has p fs ≡ true
    → s + 8 ≤ lens r p
    → let w = carved r s (prev_of p null fs) p in
      (lens w p ≡ s) × (map (lens w) us ≡ map (lens r) us)
carved_used base size r fs us p s (cf, cu, tiles, low, merged) hp room =
    let w = carved r s (prev_of p null fs) p in
    let b = bounds base size (lens r) fs us p tiles (ground arith) in
    let is = carved-Is r s (prev_of p null fs) p room (omega arith) in
    let new = carve_fresh base size (lens r) (nexts r) r.free_list fs us p s tiles cf hp room in
    (
      ground (arith, is.3 p),
      map-frame (lens r) (lens w) us
          (spared (lens r) (lens w) p (p + 8 + s) us (λ a e f. ground (arith, is.3 a)) new.1 new.3),
    )
