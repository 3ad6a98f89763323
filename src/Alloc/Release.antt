-- ===== src/Alloc/Release.antt =====
-- A block that has left the used list goes back to the free ones.
use mathlib.Core.Path.{subst, subst₂}
use eaburns_sos.Prelude.{
  ==_iff, ap, ◌∙◌, ℕ, ◌+◌, ◌≤◌, ◌<◌, ◌≡◌, ◌≢◌, ◌⊎◌, refl, sym, true, false, ◌&&◌, not, List, ◌∷◌,
  arith, ◌==◌, if◌then◌else◌, Bool-cases, inl, inr,
}
use eaburns_sos.Prelude.Chain.{
  has-null-Links, null, has, erase, prev_of, Links, Links-frame, Links-push, not-has-erase,
}
use eaburns_sos.Alloc.{
  Region, Adjacent, merge_before, merged, merge_after, add_free, release, push_free,
}
use eaburns_sos.Alloc.Cover.{distinct, ne-has}
use eaburns_sos.Alloc.Inv.{
  coalesced, apart, Tiles-frame, has-tail, nexts, lens, Tiles, IsHeap, bounds,
}
use eaburns_sos.Alloc.Steps.{Is, push_free-Is}
use eaburns_sos.Alloc.Merge.{
  after_len, merge_before-Is, joined, joined-Tiles, after-Tiles, after_free, after_used, after_lens,
}
use eaburns_sos.Alloc.Coalesce.{coalesced_at, coalesced-merge, before_of_none, not-has-cons}
use eaburns_sos.Alloc.Scan.{before_of, before_of_cases, adjacent_of}

abbrev pub nobody : Adjacent
nobody = record { before = null; after = null; after_prev = null }

-- `f` has left the used list `us`, and the free list is `fs`.
module _ (base total : ℕ) (r : Region) (fs us : List ℕ) (f : ℕ)
    (cf : Links (nexts r) r.free_list fs) (cu : Links (nexts r) r.used_list us)
    (tiles : Tiles base total (lens r) (f ∷ fs) us) (d : distinct (f ∷ fs) ≡ true)
    (low : base + total < 4294967296) where
  -- the block before, the end of the block, and what the loop finds
  abbrev b : ℕ
  b = before_of (lens r) f fs null

  abbrev e : ℕ
  e = f + 8 + lens r f

  abbrev s : Adjacent
  s = adjacent_of (lens r) f null fs nobody

  abbrev r2 : Region
  r2 = merge_before r f s

  abbrev g : ℕ
  g = merged f s

  f_bounds : (base + 8 ≤ f) × (e ≤ base + total)
  f_bounds = bounds base total (lens r) (f ∷ fs) us f tiles (ground arith)

  b_cases :
      ((b == null) ≡ true) ⊎ (((b == null) ≡ false) × (has b fs ≡ true) × (b + 8 + lens r b ≡ f))
  b_cases = elim (before_of_cases (lens r) f fs null) [
    | inl z ↦ inl (rw z refl)
    | inr found ↦
        let no_null = has-null-Links (nexts r) r.free_list fs cf in
        inr (ground (arith, ne-has null b fs no_null found.0), found.0, found.1)
  ]

  r2-Is :
      Is r2 r.free_list r.used_list
        (nexts r)
        (λ a. if not (b == null) && (a == b) then lens r b + 8 + lens r f else lens r a)
  r2-Is =
      merge_before-Is r f s
        (elim b_cases [ inl none ↦ inl none | inr (ne, i, adj) ↦ inr (omega (arith, f_bounds.1)) ])

  r2-Tiles : Tiles base total (lens r2) (joined f b fs) us
  r2-Tiles = joined-Tiles base total (lens r) (lens r2) fs us f b tiles d b_cases r2-Is.3

  -- The joined block ends where `f` did.
  g_end : g + 8 + lens r2 g ≡ e
  unfolding merged
  g_end = elim b_cases [
    | inl none ↦ rw none (ground (arith, r2-Is.3 f))
    | inr (ne, i, adj) ↦ rw ne (ground (arith, r2-Is.3 b))
  ]

  has-g : has g (joined f b fs) ≡ true
  unfolding merged
  has-g = elim b_cases [ inl none ↦ rw none (ground arith) | inr (ne, i, adj) ↦ rw ne i ]

  joined-distinct : distinct (joined f b fs) ≡ true
  joined-distinct = elim b_cases [ inl none ↦ rw none d | inr (ne, i, adj) ↦ rw ne (ground arith) ]

  has-e-joined : has e (joined f b fs) ≡ has e fs
  has-e-joined = elim b_cases [ inl none ↦ rw none (ground arith) | inr (ne, i, adj) ↦ rw ne refl ]

  joined_sub : (a : ℕ) → has a fs ≡ true → has a (joined f b fs) ≡ true
  joined_sub a i = elim b_cases [
    | inl none ↦ rw none (has-tail a f fs i)
    | inr (ne, j, adj) ↦ rw ne i
  ]

  e_cases :
      ((has e fs ≡ true) × (s.after ≡ e) × (s.after_prev ≡ prev_of e null fs))
      ⊎ ((has e fs ≡ false) × (s.after ≡ null))
  e_cases = elim (Bool-cases (has e fs)) [
    | inl i ↦ inl (i, rw i refl, rw i refl)
    | inr o ↦ inr (o, rw o refl)
  ]

  r2_free : Links (nexts r2) r2.free_list fs
  r2_free = rw r2-Is.0 (Links-frame (nexts r) (nexts r2) r.free_list fs cf (λ a i. r2-Is.2 a))

  r2_used : Links (nexts r2) r2.used_list us
  r2_used = rw r2-Is.1 (Links-frame (nexts r) (nexts r2) r.used_list us cu (λ a i. r2-Is.2 a))

  r2-lens : (a : ℕ) → has a us ≡ true → lens r2 a ≡ lens r a
  r2-lens a i = elim b_cases [
    | inl none ↦ ground (arith, r2-Is.3 a)
    | inr (ne, j, adj) ↦
        let out = apart base total (lens r) (f ∷ fs) us tiles b (has-tail b f fs j) in
        ground (arith, r2-Is.3 a, ne-has b a us out i)
  ]

  abbrev r3 : Region
  r3 = merge_after r2 g s

  abbrev rest : List ℕ
  rest = erase e (joined f b fs)

  r3-Tiles : Tiles base total (lens r3) rest us
  r3-Tiles =
      after-Tiles base total r2 s g e (joined f b fs) fs us r2_free r2_used r2-Tiles joined-distinct
        has-g g_end has-e-joined joined_sub low e_cases

  r3_free : Links (nexts r3) r3.free_list (erase e fs)
  r3_free =
      after_free base total r2 s g e (joined f b fs) fs us r2_free r2_used r2-Tiles joined-distinct
        has-g g_end has-e-joined joined_sub low e_cases

  r3_used : Links (nexts r3) r3.used_list us
  r3_used =
      after_used base total r2 s g e (joined f b fs) fs us r2_free r2_used r2-Tiles joined-distinct
        has-g g_end has-e-joined joined_sub low e_cases

  r3-lens : (a : ℕ) → has a us ≡ true → lens r3 a ≡ lens r a
  r3-lens a i =
      after_lens base total r2 s g e (joined f b fs) fs us r2_free r2_used r2-Tiles joined-distinct
        has-g g_end has-e-joined joined_sub low e_cases a i
      ∙ r2-lens a i

  f_new : (f ≢ null) × (has f (erase e fs) ≡ false) × (has f us ≡ false) × ((f == e) ≡ false)
  f_new = (
    omega (arith, f_bounds),
    not-has-erase f e fs (ground arith),
    apart base total (lens r) (f ∷ fs) us tiles f (ground arith),
    ground arith,
  )

  added : (b == null) ≡ true → (release r f s ≡ push_free r3 f) × (rest ≡ f ∷ erase e fs)
  unfolding release add_free merged
  added none = (rw none refl, rw none (ground (arith, f_new)))

  not_added : (b == null) ≡ false → (release r f s ≡ r3) × (rest ≡ erase e fs)
  unfolding release add_free merged
  not_added ne = (rw ne refl, rw ne refl)

  -- a heap but for the coalescing
  abbrev Parts : List ℕ → Region → Type 0
  Parts xs q =
      Links (nexts q) q.free_list xs
      × Links (nexts q) q.used_list us
      × Tiles base total (lens q) xs us

  pushed-Parts : rest ≡ f ∷ erase e fs → Parts (f ∷ erase e fs) (push_free r3 f)
  pushed-Parts eq =
      let r4 = push_free r3 f in
      let is = push_free-Is r3 f in
      let free : Links (nexts r4) f (f ∷ erase e fs) =
        Links-push (nexts r3) (nexts r4) f r3.free_list (erase e fs) r3_free f_new.0 f_new.1
          (ground (arith, is.2 f))
          (λ a i. ground (arith, is.2 a, ne-has f a (erase e fs) f_new.1 i)) in
      let used : Links (nexts r4) r3.used_list us =
        Links-frame (nexts r3) (nexts r4) r3.used_list us r3_used
          (λ a i. ground (arith, is.2 a, ne-has f a us f_new.2 i)) in
      let tiled = Tiles-frame base total (lens r3) (lens r4) rest us r3-Tiles is.3 in
      (
        subst (λ h. Links (nexts r4) h (f ∷ erase e fs)) (sym is.0) free,
        subst (λ h. Links (nexts r4) h us) (sym is.1) used,
        subst (λ l. Tiles base total (lens r4) l us) eq tiled,
      )

  release-Parts : Parts rest (release r f s)
  release-Parts = elim b_cases [
    | inr (ne, i, adj) ↦
        let eqs = not_added ne in
        subst₂ (λ q l. Parts l q) (sym eqs.0) (sym eqs.1)
          (r3_free, r3_used, subst (λ l. Tiles base total (lens r3) l us) eqs.1 r3-Tiles)
    | inl none ↦
        let eqs = added none in
        subst₂ (λ q l. Parts l q) (sym eqs.0) (sym eqs.1) (pushed-Parts eqs.1)
  ]

  -- The blocks that stay used keep their sizes.
  pub lens-release : (a : ℕ) → has a us ≡ true → lens (release r f s) a ≡ lens r a
  lens-release a i = elim b_cases [
    | inr (ne, j, adj) ↦ ap (λ q. lens q a) (not_added ne).0 ∙ r3-lens a i
    | inl none ↦ ap (λ q. lens q a) (added none).0 ∙ (push_free-Is r3 f).3 a ∙ r3-lens a i
  ]

  release_len :
      (a : ℕ)
      → lens (release r f s) a
        ≡ (if has e (joined f b fs) && (a == g) then lens r2 g + 8 + lens r2 e else lens r2 a)
  release_len a =
      let r3_len =
        after_len base total r2 s g e (joined f b fs) fs us r2_free r2_used r2-Tiles joined-distinct
          has-g g_end has-e-joined joined_sub low e_cases a in
      elim b_cases [
        | inr (ne, j, adj) ↦ ap (λ q. lens q a) (not_added ne).0 ∙ r3_len
        | inl none ↦ ap (λ q. lens q a) (added none).0 ∙ (push_free-Is r3 f).3 a ∙ r3_len
      ]

  g_alone : (b == null) ≡ true → g ≡ f
  unfolding merged
  g_alone none = rw none refl

  g_joined : (b == null) ≡ false → g ≡ b
  unfolding merged
  g_joined ne = rw ne refl

  joined_apart :
      coalesced (lens r) fs fs ≡ true
      → (a : ℕ) → has a (joined f b fs) ≡ true
      → (a == g) ≡ false
      → has (a + 8 + lens r2 a) (joined f b fs) ≡ false
  joined_apart c a h ne = elim b_cases [
    | inl none ↦
        let g_is = g_alone none in
        let ha : has a fs ≡ true = ground (arith, rw none at h) in
        let same : lens r2 a ≡ lens r a = ground (arith, r2-Is.3 a) in
        let z : b ≡ null = (==_iff _ _).0 none in
        let no_null = has-null-Links (nexts r) r.free_list fs cf in
        let apart_f = before_of_none (lens r) f fs null a no_null z ha in
        let out : has (a + 8 + lens r2 a) fs ≡ false =
          rw same (coalesced_at (lens r) fs fs a c ha) in
        rw none (not-has-cons f (a + 8 + lens r2 a) fs (ground arith) out)
    | inr (nb, j, adj) ↦
        let g_is = g_joined nb in
        let same : lens r2 a ≡ lens r a = ground (arith, r2-Is.3 a) in
        rw nb (rw same (coalesced_at (lens r) fs fs a c (rw nb at h)))
  ]

  -- If no free block ended where another begins, none does after the release.
  release-coalesced :
      coalesced (lens r) fs fs ≡ true → coalesced (lens (release r f s)) rest rest ≡ true
  release-coalesced c =
      coalesced-merge (lens r2) (lens (release r f s)) g e (joined f b fs) joined-distinct
        (joined_apart c) g_end release_len

  -- With `f` back among its free blocks, the heap holds.
  pub release-IsHeap : coalesced (lens r) fs fs ≡ true → IsHeap base total rest us (release r f s)
  release-IsHeap c = (release-Parts.0, release-Parts.1, release-Parts.2, low, release-coalesced c)
