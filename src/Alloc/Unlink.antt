-- ===== src/Alloc/Unlink.antt =====
-- A block leaves the free list, or the used list.
use mathlib.Core.Path.{subst}
use eaburns_sos.Prelude.{
  sym, ℕ, ◌≡◌, true, false, ◌&&◌, not, List, ◌∷◌, arith, ◌==◌, Bool-cases, inl, inr, ==_iff,
}
use eaburns_sos.Prelude.Chain.{
  null, has, erase, prev_of, Links, Links-frame, Links-unlink, prev_of-has, prev_of-has,
}
use eaburns_sos.Alloc.{unlink_used, Region, unlink_free}
use eaburns_sos.Alloc.Steps.{skip_head, unlink_free-Is, unlink_used-Is}
use eaburns_sos.Alloc.Cover.{cover-erase}
use eaburns_sos.Alloc.Inv.{apart, Tiles-frame, nexts, lens, Tiles, IsHeap}

-- The address before a block of one list is no block of the other.
pub prev_of_used :
    (fs us : List ℕ) (p a : ℕ)
    → ((y : ℕ) → has y fs ≡ true → has y us ≡ false)
    → has a us ≡ true
    → (not (prev_of p null fs == null) && (a == prev_of p null fs)) ≡ false
prev_of_used fs us p a apart ha = elim (Bool-cases (a == prev_of p null fs)) [
  | inr other ↦ ground arith
  | inl e ↦ elim (Bool-cases (has (prev_of p null fs) fs)) [
    | inr out ↦ ground (arith, prev_of-has p null fs)
    | inl h ↦
        let q : a ≡ prev_of p null fs = (==_iff _ _).0 e in
        let no = apart (prev_of p null fs) h in absurd (cc)
  ]
]

-- A block leaves the free list.
pub unlink_free-Links :
    (base size : ℕ) (r : Region) (fs us : List ℕ) (p : ℕ)
    → IsHeap base size fs us r
    → has p fs ≡ true
    → let u = unlink_free r (prev_of p null fs) p in
      Links (nexts u) u.free_list (erase p fs) × Links (nexts u) u.used_list us
unlink_free-Links base size r fs us p (cf, cu, tiles, low, merged) hp =
    let j = prev_of p null fs in
    let u = unlink_free r j p in
    let is = unlink_free-Is r j p in
    let free : Links (nexts u) (skip_head (nexts r) j r.free_list) (erase p fs) =
      Links-unlink (nexts r) (nexts u) p r.free_list fs cf hp is.2 in
    let used : Links (nexts u) r.used_list us =
      Links-frame (nexts r) (nexts u) r.used_list us cu (λ a i.
        ground (arith, is.2 a, prev_of_used fs us p a (apart base size (lens r) fs us tiles) i)) in
    (
      subst (λ h. Links (nexts u) h (erase p fs)) (sym is.0) free,
      subst (λ h. Links (nexts u) h us) (sym is.1) used,
    )

-- A block leaves the used list, to which the first list of the tiles gets it.
pub unlink_used-Links :
    (base size : ℕ) (r : Region) (fs us : List ℕ) (p : ℕ)
    → IsHeap base size fs us r
    → has p us ≡ true
    → let u = unlink_used r (prev_of p null us) p in
      Links (nexts u) u.free_list fs
      × Links (nexts u) u.used_list (erase p us)
      × Tiles base size (lens u) (p ∷ fs) (erase p us)
unlink_used-Links base size r fs us p (cf, cu, tiles, low, merged) hp =
    let j = prev_of p null us in
    let u = unlink_used r j p in
    let is = unlink_used-Is r j p in
    let swapped : Tiles base size (lens r) us fs = λ x. omega (arith, tiles x) in
    let used : Links (nexts u) (skip_head (nexts r) j r.used_list) (erase p us) =
      Links-unlink (nexts r) (nexts u) p r.used_list us cu hp is.2 in
    let free : Links (nexts u) r.free_list fs =
      Links-frame (nexts r) (nexts u) r.free_list fs cf (λ a i.
        ground
          (arith, is.2 a, prev_of_used us fs p a (apart base size (lens r) us fs swapped) i)) in
    let moved : Tiles base size (lens r) (p ∷ fs) (erase p us) =
      λ x. omega (arith, tiles x, cover-erase (lens r) p us x hp) in
    (
      subst (λ h. Links (nexts u) h fs) (sym is.0) free,
      subst (λ h. Links (nexts u) h (erase p us)) (sym is.1) used,
      Tiles-frame base size (lens r) (lens u) (p ∷ fs) (erase p us) moved is.3,
    )
