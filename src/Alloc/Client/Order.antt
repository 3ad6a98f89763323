-- ===== src/Alloc/Client/Order.antt =====
-- Blocks of the kernel's heap that are given back in another order than they were given out.
use mathlib.Core.Path.{subst}
use eaburns_sos.Prelude.{ℕ, suc, ◌-◌, ◌≡◌, ◌∙◌, Nat-cases, ap, some, inl, inr, List, arith}
use eaburns_sos.Prelude.Chain.{has, not-has-erase}
use eaburns_sos.Alloc.Kalloc.{Kalloc, kfree}
use eaburns_sos.Alloc.Client.{Holds, grown, shrunk, Fresh, Given, kfree_step, shrunk-grown_twice}

pub Given-grown_self : (a : ℕ) (us : List ℕ) → Fresh us a → Given (grown a us) a
Given-grown_self a us (inl z) = inl z
Given-grown_self a us (inr (lo, out)) = inr (lo, ground arith)

pub shrunk-grown_self : (a : ℕ) (us : List ℕ) → Fresh us a → shrunk a (grown a us) ≡ us
shrunk-grown_self a us (inl z) = ground arith
shrunk-grown_self a us (inr (lo, out)) = ground arith

pub Given-grown : (a b : ℕ) (us : List ℕ) → Given us a → Given (grown b us) a
Given-grown a b us (inl z) = inl z
Given-grown a b us (inr (lo, there)) = inr (lo, ground arith)

-- Giving back one block and giving out another do not depend on the order.
pub shrunk-grown :
    (a b : ℕ) (us : List ℕ)
    → Given us a
    → Fresh us b
    → shrunk a (grown b us) ≡ grown b (shrunk a us)
shrunk-grown a b us (inl z) fresh = ground arith
shrunk-grown a b us (inr (lo, there)) (inl z) = ground arith
shrunk-grown a b us (inr (lo, there)) (inr (lo', out)) = elim (Nat-cases (b - 8) (a - 8)) [
  | inl same ↦ absurd (cc (ap (λ x. has x us) same, there, out))
  | inr ne ↦ ground arith
]

pub Fresh-shrunk : (a b : ℕ) (us : List ℕ) → Fresh us b → Fresh (shrunk a us) b
Fresh-shrunk a b us (inl z) = inl z
Fresh-shrunk a b us (inr (lo, out)) = inr (lo, ground (arith, not-has-erase (b - 8) (a - 8) us out))

-- the used blocks once three more were given out, each of them new
abbrev pub grown_thrice : (p i t : ℕ) → List ℕ → List ℕ
grown_thrice p i t us = grown t (grown i (grown p us))

abbrev pub FreshThrice : (p i t : ℕ) → List ℕ → Type 0
FreshThrice p i t us = Fresh us p × Fresh (grown p us) i × Fresh (grown i (grown p us)) t

-- A block below three newer ones is given back.
pub shrunk-grown_thrice :
    (a p i t : ℕ) (us : List ℕ)
    → Given us a
    → FreshThrice p i t us
    → Given (grown_thrice p i t us) a
      × (shrunk a (grown_thrice p i t us) ≡ grown_thrice p i t (shrunk a us))
      × FreshThrice p i t (shrunk a us)
shrunk-grown_thrice a p i t us given (fp, fi, ft) =
    let g1 = Given-grown a p us given in
    let g2 = Given-grown a i (grown p us) g1 in
    let e1 = shrunk-grown a p us given fp in
    let e2 = shrunk-grown a i (grown p us) g1 fi ∙ ap (grown i) e1 in
    (
      Given-grown a t (grown i (grown p us)) g2,
      shrunk-grown a t (grown i (grown p us)) g2 ft ∙ ap (grown t) e2,
      (
        Fresh-shrunk a p us fp,
        subst (λ l. Fresh l i) e1 (Fresh-shrunk a i (grown p us) fi),
        subst (λ l. Fresh l t) e2 (Fresh-shrunk a t (grown i (grown p us)) ft),
      ),
    )

module _ (base total fuel : ℕ) where
  -- A block that is given back after others, where `us'` are the used blocks then.
  back_to :
      (us us' : List ℕ) (n : ℕ) (k : Kalloc) (a : ℕ)
      → Holds base total fuel us (suc n) k
      → Given us a
      → shrunk a us ≡ us'
      → (k' : Kalloc) × (kfree fuel k a ≡ some k') × Holds base total fuel us' n k'
  back_to us us' n k a holds given same =
      let (k', e, holds') = kfree_step base total fuel us n k a holds given in
      (k', e, subst (λ l. Holds base total fuel l n k') same holds')

  -- Two blocks and then three more were given out; the two are given back, and the three from the
  -- newest to the oldest.
  pub five_back :
      (us : List ℕ) (k : Kalloc) (a b p i t : ℕ)
      → Fresh us a
      → Fresh (grown a us) b
      → FreshThrice p i t (grown b (grown a us))
      → Holds base total fuel (grown_thrice p i t (grown b (grown a us))) 5 k
      → (k1 : Kalloc) × (k2 : Kalloc) × (k3 : Kalloc) × (k4 : Kalloc) × (k5 : Kalloc) × (kfree fuel
            k a
          ≡ some k1)
        × (kfree fuel k1 b ≡ some k2)
        × (kfree fuel k2 t ≡ some k3)
        × (kfree fuel k3 i ≡ some k4)
        × (kfree fuel k4 p ≡ some k5)
        × Holds base total fuel us 0 k5
  five_back us k a b p i t fa fb fresh holds =
      let us2 = grown b (grown a us) in
      let us3 = shrunk a us2 in
      let (ga, gb, same) = shrunk-grown_twice a b us fa fb in
      let (g1, s1, fresh3) = shrunk-grown_thrice a p i t us2 ga fresh in
      let (g2, s2, fresh4) = shrunk-grown_thrice b p i t us3 gb fresh3 in
      let (fp, fi, ft) = subst (FreshThrice p i t) same fresh4 in
      let (k1, e1, h1) =
        back_to (grown_thrice p i t us2) (grown_thrice p i t us3) 4 k a holds g1 s1 in
      let (k2, e2, h2) =
        back_to (grown_thrice p i t us3) (grown_thrice p i t us) 3 k1 b h1 g2
          (s2 ∙ ap (grown_thrice p i t) same) in
      let (k3, e3, h3) =
        back_to (grown_thrice p i t us) (grown i (grown p us)) 2 k2 t h2
          (Given-grown_self t (grown i (grown p us)) ft)
          (shrunk-grown_self t (grown i (grown p us)) ft) in
      let (k4, e4, h4) =
        back_to (grown i (grown p us)) (grown p us) 1 k3 i h3 (Given-grown_self i (grown p us) fi)
          (shrunk-grown_self i (grown p us) fi) in
      let (k5, e5, h5) =
        back_to (grown p us) us 0 k4 p h4 (Given-grown_self p us fp) (shrunk-grown_self p us fp) in
      (k1, k2, k3, k4, k5, e1, e2, e3, e4, e5, h5)
