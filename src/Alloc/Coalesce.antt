-- ===== src/Alloc/Coalesce.antt =====
-- No free block ends where another one begins.
use mathlib.Core.Path.{subst}
use eaburns_sos.Prelude.{
  sym, ℕ, ◌+◌, ◌-◌, ◌≤◌, ◌≡◌, ◌≢◌, refl, true, false, ◌&&◌, List, [], ◌∷◌, arith, ◌==◌,
  if◌then◌else◌, Bool-cases, Nat-cases, inl, inr,
}
use eaburns_sos.Prelude.Chain.{null, has, erase, not-has-erase, erase_self}
use eaburns_sos.Alloc.Cover.{
  inside, inside_last, inside-le, cover-erase, distinct, not-has-distinct, ne-has,
}
use eaburns_sos.Alloc.Inv.{coalesced, Tiles, inner-le}
use eaburns_sos.Alloc.Scan.{before_of, before_of_cases}

pub coalesced_at :
    (len : ℕ → ℕ) (xs fs : List ℕ) (a : ℕ)
    → coalesced len xs fs ≡ true
    → has a xs ≡ true
    → has (a + 8 + len a) fs ≡ false
coalesced_at len [] fs a c h = absurd (cc)
coalesced_at len (x ∷ xs) fs a c h = elim (Nat-cases x a) [
  | inl e ↦
      let here : has (x + 8 + len x) fs ≡ false = ground arith in
      subst (λ y. has (y + 8 + len y) fs ≡ false) e here
  | inr ne ↦ coalesced_at len xs fs a (ground arith) (ground arith)
]

pub not-has-cons :
    (x a : ℕ) (xs : List ℕ) → (x == a) ≡ false → has a xs ≡ false → has a (x ∷ xs) ≡ false
not-has-cons x a xs ne out = ground arith

has-erase_of : (a p : ℕ) (xs : List ℕ) → has a (erase p xs) ≡ true → has a xs ≡ true
has-erase_of a p xs h = elim (Bool-cases (has a xs)) [
  | inl i ↦ i
  | inr o ↦ let no = not-has-erase a p xs o in absurd (cc)
]

pub coalesced_intro :
    (len : ℕ → ℕ) (xs fs : List ℕ)
    → ((a : ℕ) → has a xs ≡ true → has (a + 8 + len a) fs ≡ false)
    → coalesced len xs fs ≡ true
coalesced_intro len [] fs h = refl
coalesced_intro len (x ∷ xs) fs h =
    rw (h x (ground arith)) (coalesced_intro len xs fs (λ a i. h a (ground arith)))

-- Two free blocks do not overlap, so none ends inside another.
ends_apart :
    (base size : ℕ) (len : ℕ → ℕ) (fs us : List ℕ) (p a s : ℕ)
    → Tiles base size len fs us
    → has p fs ≡ true
    → has a (erase p fs) ≡ true
    → s + 8 ≤ len p
    → a + 8 + len a ≢ p + 8 + s
ends_apart base size len fs us p a s tiles hp ha room e =
    let x = a + 7 + len a in
    let in_p : inside len p x ≡ 1 = ground arith in
    omega (
      arith,
      tiles x,
      inner-le base size x,
      cover-erase len p fs x hp,
      inside-le len a (erase p fs) x ha,
      inside_last len a,
      in_p,
    )

-- Carving the front of a free block keeps that.
pub coalesced-carve :
    (base size : ℕ) (l m : ℕ → ℕ) (fs us : List ℕ) (p s : ℕ)
    → Tiles base size l fs us
    → coalesced l fs fs ≡ true
    → distinct fs ≡ true
    → has p fs ≡ true
    → s + 8 ≤ l p
    → ((a : ℕ) → m a ≡ (if a == p then s else if a == p + 8 + s then l p - (s + 8) else l a))
    → coalesced m ((p + 8 + s) ∷ erase p fs) ((p + 8 + s) ∷ erase p fs) ≡ true
coalesced-carve base size l m fs us p s tiles c d hp room step =
    let k = p + 8 + s in
    coalesced_intro m (k ∷ erase p fs) (k ∷ erase p fs) (λ a h. elim (Nat-cases k a) [
      | inl e ↦
          let mk : m k ≡ l p - (s + 8) = ground (arith, step k) in
          let end : k + 8 + m k ≡ p + 8 + l p = omega arith in
          let out = not-has-erase (p + 8 + l p) p fs (coalesced_at l fs fs p c hp) in
          subst (λ y. has (y + 8 + m y) (k ∷ erase p fs) ≡ false) e
            (not-has-cons k (k + 8 + m k) (erase p fs) (ground arith) (rw end out))
      | inr ne ↦
          let ha : has a (erase p fs) ≡ true = ground (arith, h) in
          let not_p = ne-has p a (erase p fs) (not-has-distinct p fs d) ha in
          let ma : m a ≡ l a = ground (arith, step a) in
          let out =
            not-has-erase (a + 8 + l a) p fs (coalesced_at l fs fs a c (has-erase_of a p fs ha)) in
          let other = ends_apart base size l fs us p a s tiles hp ha room in
          not-has-cons k (a + 8 + m a) (erase p fs) (ground arith) (rw ma out)
    ])

pub before_of_none :
    (len : ℕ → ℕ) (f : ℕ) (xs : List ℕ) (b a : ℕ)
    → has null xs ≡ false
    → before_of len f xs b ≡ null
    → has a xs ≡ true
    → a + 8 + len a ≢ f
before_of_none len f [] b a nn z h e = absurd (cc)
before_of_none len f (x ∷ xs) b a nn z h e = elim (Nat-cases x a) [
  | inr ne ↦ before_of_none len f xs _ a (ground arith) z (ground arith) e
  | inl here ↦
      let ends : (x + 8 + len x == f) ≡ true = ground arith in
      let z' : before_of len f xs x ≡ null = rw ends at z in
      elim (before_of_cases len f xs x) [
        | inl same ↦ ground arith
        | inr found ↦ let bad : has null xs ≡ true = rw z' at found.0 in ground arith
      ]
]

-- A merge of the block `g` with the one that begins at its end.
pub coalesced-merge :
    (l m : ℕ → ℕ) (g e : ℕ) (xs : List ℕ)
    → distinct xs ≡ true
    → ((a : ℕ) → has a xs ≡ true → (a == g) ≡ false → has (a + 8 + l a) xs ≡ false)
    → g + 8 + l g ≡ e
    → ((a : ℕ) → m a ≡ (if has e xs && (a == g) then l g + 8 + l e else l a))
    → coalesced m (erase e xs) (erase e xs) ≡ true
coalesced-merge l m g e xs d apart ends step = elim (Bool-cases (has e xs)) [
  | inr out ↦ rw (erase_self e xs out) (
      coalesced_intro m xs xs (λ a h.
        let ma : m a ≡ l a = ground (arith, step a) in
        elim (Nat-cases a g) [
          | inl here ↦
              let at_g : a + 8 + l a ≡ e = subst (λ y. y + 8 + l y ≡ e) (sym here) ends in
              rw ma (rw at_g out)
          | inr ne ↦ rw ma (apart a h (ground arith))
        ]))
  | inl i ↦ coalesced_intro m (erase e xs) (erase e xs) (λ a h.
      let ha = has-erase_of a e xs h in
      elim (Nat-cases a g) [
        | inl here ↦
            let mg : m g ≡ l g + 8 + l e = ground (arith, step g) in
            let end : g + 8 + m g ≡ e + 8 + l e = omega arith in
            let out = not-has-erase (e + 8 + l e) e xs (apart e i (ground arith)) in
            subst (λ y. has (y + 8 + m y) (erase e xs) ≡ false) (sym here) (rw end out)
        | inr ne ↦
            let ma : m a ≡ l a = ground (arith, step a) in
            rw ma (not-has-erase (a + 8 + l a) e xs (apart a ha (ground arith)))
      ])
]
