-- ===== src/Alloc/Merge.antt =====
-- Merging a block with the free blocks before and after it.
use eaburns_sos.Prelude.{
  ◌∙◌, ℕ, ◌+◌, ◌<◌, ◌≡◌, ◌⊎◌, refl, sym, true, false, ◌&&◌, not, List, ◌∷◌, arith, ◌==◌,
  if◌then◌else◌, inl, inr,
}
use eaburns_sos.Prelude.Chain.{
  has-null-Links, null, has, erase, prev_of, Links, Links-frame, Links-unlink, erase_self,
}
use eaburns_sos.Alloc.{
  Region, Adjacent, merge_before, merge_after, set_slot_next, set_slot_len, unlink_free,
}
use eaburns_sos.Alloc.Cover.{cover-frame, inside_first, cover-merge, distinct, ne-has}
use eaburns_sos.Alloc.Inv.{apart, apart_used, Tiles-frame, has-tail, nexts, lens, Tiles, bounds}
use eaburns_sos.Alloc.Steps.{Is, skip, skip_head}
use eaburns_sos.Alloc.Unlink.{prev_of_used}

pub merge_before-Is :
    (r : Region) (f : ℕ) (s : Adjacent)
    → ((s.before == null) ≡ true) ⊎ (lens r s.before + 8 + lens r f < 4294967296)
    → Is (merge_before r f s) r.free_list r.used_list (nexts r) (λ a.
      if not (s.before == null) && (a == s.before)
      then lens r s.before + 8 + lens r f
      else lens r a)
unfolding merge_before set_slot_len
merge_before-Is r f s (inl none) = ground arith
merge_before-Is r f s (inr low) = ground arith

merge_after-Is :
    (r : Region) (f : ℕ) (s : Adjacent)
    → ((s.after == null) ≡ true) ⊎ (lens r f + 8 + lens r s.after < 4294967296)
    → Is
        (merge_after r f s)
        (if s.after == null then r.free_list else skip_head (nexts r) s.after_prev r.free_list)
        r.used_list
        (λ a. if s.after == null then nexts r a else skip (nexts r) s.after_prev s.after a)
        (λ a. if not (s.after == null) && (a == f) then lens r f + 8 + lens r s.after else lens r a)
unfolding merge_after unlink_free set_slot_len set_slot_next
merge_after-Is r f s (inl none) = ground arith
merge_after-Is r f s (inr low) = ground arith

-- the blocks that are free or loose, after a merge into the block before
abbrev pub joined : (f b : ℕ) → List ℕ → List ℕ
joined f b fs = if b == null then f ∷ fs else fs

merged-Tiles :
    (base size : ℕ) (l m : ℕ → ℕ) (xs us : List ℕ) (a b : ℕ)
    → Tiles base size l xs us
    → distinct xs ≡ true
    → has a xs ≡ true
    → has b xs ≡ true
    → b ≡ a + 8 + l a
    → ((c : ℕ) → m c ≡ (if c == a then l a + 8 + l b else l c))
    → Tiles base size m (erase b xs) us
merged-Tiles base size l m xs us a b tiles d ha hb adj step x =
    let out = apart_used base size l xs us a a tiles ha (inside_first l a) in
    let merge =
      cover-merge l m a b xs x d ha hb (ground arith) adj (ground (arith, step a))
        (λ c n. ground (arith, step c)) in
    let used = cover-frame l m us x (λ c i. ground (arith, step c, ne-has a c us out i)) in
    omega (arith, tiles x, merge, used)

pub joined-Tiles :
    (base size : ℕ) (l m : ℕ → ℕ) (fs us : List ℕ) (f b : ℕ)
    → Tiles base size l (f ∷ fs) us
    → distinct (f ∷ fs) ≡ true
    → ((b == null) ≡ true) ⊎ (((b == null) ≡ false) × (has b fs ≡ true) × (b + 8 + l b ≡ f))
    → ((a : ℕ) → m a ≡ (if not (b == null) && (a == b) then l b + 8 + l f else l a))
    → Tiles base size m (joined f b fs) us
joined-Tiles base size l m fs us f b tiles d (inl none) step =
    rw none (Tiles-frame base size l m (f ∷ fs) us tiles (λ a. ground (arith, step a)))
joined-Tiles base size l m fs us f b tiles d (inr (ne, hb, adj)) step =
    let first : erase f (f ∷ fs) ≡ fs = ground arith in
    let merged =
      merged-Tiles base size l m (f ∷ fs) us b f tiles d (has-tail b f fs hb) (ground arith)
        (sym adj) (λ c. ground (arith, step c)) in
    rw ne (rw first at merged)

-- The block `g`, which ends at `e`, is merged with a free block at `e`.
module _ (base total : ℕ) (r : Region) (s : Adjacent) (g e : ℕ) (xs fs us : List ℕ)
    (cf : Links (nexts r) r.free_list fs) (cu : Links (nexts r) r.used_list us)
    (tiles : Tiles base total (lens r) xs us) (d : distinct xs ≡ true) (hg : has g xs ≡ true)
    (g_end : g + 8 + lens r g ≡ e) (he : has e xs ≡ has e fs)
    (sub : (a : ℕ) → has a fs ≡ true → has a xs ≡ true) (low : base + total < 4294967296)
    (cases : ((has e fs ≡ true) × (s.after ≡ e) × (s.after_prev ≡ prev_of e null fs))
      ⊎ ((has e fs ≡ false) × (s.after ≡ null))) where
  after-Is :
      Is
        (merge_after r g s)
        (if s.after == null then r.free_list else skip_head (nexts r) s.after_prev r.free_list)
        r.used_list
        (λ a. if s.after == null then nexts r a else skip (nexts r) s.after_prev s.after a)
        (λ a. if not (s.after == null) && (a == g) then lens r g + 8 + lens r s.after else lens r a)
  after-Is = merge_after-Is r g s (elim cases [
    | inr (o, z) ↦ inl (rw z refl)
    | inl (i, is_e, is_prev) ↦
        let ends = bounds base total (lens r) xs us e tiles (rw he (rw i refl)) in
        inr (rw is_e (omega arith))
  ])

  e_ne_null : has e fs ≡ true → (e == null) ≡ false
  e_ne_null i = ne-has null e fs (has-null-Links (nexts r) r.free_list fs cf) i

  abbrev r' : Region
  r' = merge_after r g s

  pub after-Tiles : Tiles base total (lens r') (erase e xs) us
  after-Tiles = elim cases [
    | inr (o, z) ↦
        rw (erase_self e xs (he ∙ o)) (
          Tiles-frame base total (lens r) (lens r') xs us tiles (λ a. ground (arith, after-Is.3 a)))
    | inl (i, is_e, is_prev) ↦
        merged-Tiles base total (lens r) (lens r') xs us g e tiles d hg (he ∙ i) (sym g_end)
          (λ c. ground (arith, after-Is.3 c, e_ne_null i))
  ]

  pub after_free : Links (nexts r') r'.free_list (erase e fs)
  after_free = elim cases [
    | inr (o, z) ↦
        let h : r'.free_list ≡ r.free_list = ground (arith, after-Is.0) in
        rw (erase_self e fs o) (
          rw h (
            Links-frame (nexts r) (nexts r') r.free_list fs cf
              (λ a i. ground (arith, after-Is.2 a))))
    | inl (i, is_e, is_prev) ↦
        let h : r'.free_list ≡ skip_head (nexts r) (prev_of e null fs) r.free_list =
          ground (arith, after-Is.0, e_ne_null i) in
        rw h (
          Links-unlink (nexts r) (nexts r') e r.free_list fs cf i
            (λ a. ground (arith, after-Is.2 a, e_ne_null i)))
  ]

  pub after_used : Links (nexts r') r'.used_list us
  after_used =
      let other : (a : ℕ) → has a us ≡ true → nexts r' a ≡ nexts r a = λ a i. elim cases [
        | inr (o, z) ↦ ground (arith, after-Is.2 a)
        | inl (j, is_e, is_prev) ↦
            let out =
              prev_of_used fs us e a (λ y k. apart base total (lens r) xs us tiles y (sub y k)) i in
            ground (arith, after-Is.2 a)
      ] in
      rw after-Is.1 (Links-frame (nexts r) (nexts r') r.used_list us cu other)

  pub after_lens : (a : ℕ) → has a us ≡ true → lens r' a ≡ lens r a
  after_lens a i =
      ground (arith, after-Is.3 a, ne-has g a us (apart base total (lens r) xs us tiles g hg) i)

  pub after_len :
      (a : ℕ) → lens r' a ≡ (if has e xs && (a == g) then lens r g + 8 + lens r e else lens r a)
  after_len a = elim cases [
    | inr (o, z) ↦ ground (arith, after-Is.3 a)
    | inl (i, is_e, is_prev) ↦ ground (arith, after-Is.3 a, e_ne_null i)
  ]
