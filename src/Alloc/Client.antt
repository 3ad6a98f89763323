-- ===== src/Alloc/Client.antt =====
-- The kernel's heap for its clients: what one call does to the list of the used blocks.
pub mod Order
use mathlib.Core.Path.{subst}
use eaburns_sos.Prelude.{
  ℕ, suc, ◌+◌, ◌-◌, ◌<◌, ◌≤◌, ◌≡◌, ◌⊎◌, ◌∙◌, Nat-cases, refl, sym, ap, true, false, ◌==◌,
  if◌then◌else◌, some, none, Bool, ◌++◌, Option-cases, ret_success, ret_failure, inl, inr, List, [],
  ◌∷◌, arith, length, Bool-cases,
}
use eaburns_sos.Prelude.Chain.{null, has, erase, not-has-erase}
use eaburns_sos.Alloc.{round_up}
use eaburns_sos.Alloc.Inv.{IsHeap, lens, fit_of, bounds}
use eaburns_sos.Alloc.Merge.{joined}
use eaburns_sos.Alloc.Scan.{before_of}
use eaburns_sos.Alloc.Take.{alloc_lem}
use eaburns_sos.Alloc.Free.{free_lem, free_unused, freed}
use eaburns_sos.Alloc.Kalloc.{Kalloc, kalloc, kfree, kalloc_eq, kfree_eq, length-erase}

-- The heap is initialised and holds, `us` are the used blocks, and the fuel lasts for `n` more calls.
abbrev pub Holds : (base total fuel : ℕ) → (us : List ℕ) → (n : ℕ) → Kalloc → Type 0
Holds base total fuel us n k =
    (fs : List ℕ) × IsHeap base total fs us k.region
    × (k.inited ≡ 1)
    × (length fs + n < fuel)
    × (length us + n < fuel)

-- Whether `kalloc` gives a block for each of the sizes, one after the other.
unfoldable pub has_room : (fuel : ℕ) → Kalloc → List ℕ → Bool
has_room fuel k [] = true
has_room fuel k (size ∷ sizes) = elim (kalloc fuel k size) [
  | none ↦ false
  | some r ↦ if r.0 == null then false else has_room fuel r.1 sizes
]

pub has_room_step :
    (fuel : ℕ) (k k' : Kalloc) (size a : ℕ) (sizes : List ℕ)
    → kalloc fuel k size ≡ some (a, k')
    → has_room fuel k (size ∷ sizes) ≡ (if a == null then false else has_room fuel k' sizes)
unfolding has_room
has_room_step fuel k k' size a sizes e = rw (e, has_room) refl

-- The first block is there, and then there is room for the others.
pub has_room_first :
    (fuel : ℕ) (k k' : Kalloc) (size a : ℕ) (sizes : List ℕ)
    → kalloc fuel k size ≡ some (a, k')
    → has_room fuel k (size ∷ sizes) ≡ true
    → ((a == null) ≡ false) × (has_room fuel k' sizes ≡ true)
has_room_first fuel k k' size a sizes e room =
    let step = has_room_step fuel k k' size a sizes e in
    elim (Bool-cases (a == null)) [
      | inl z ↦ absurd (cc (rw z at step, room))
      | inr some_block ↦ (some_block, sym (rw some_block at step) ∙ room)
    ]

-- Room for more blocks is room for those in front.
pub has_room_some :
    (fuel : ℕ) (k : Kalloc) (sizes rest : List ℕ)
    → has_room fuel k (sizes ++ rest) ≡ true
    → has_room fuel k sizes ≡ true
unfolding has_room
has_room_some fuel k [] rest room = refl
has_room_some fuel k (size ∷ sizes) rest room = elim (Option-cases (kalloc fuel k size)) [
  | inl out ↦ absurd (cc (rw (out, has_room) at room))
  | inr (r, e) ↦
      let (block, room') = has_room_first fuel k r.1 size r.0 (sizes ++ rest) e room in
      has_room_step fuel k r.1 size r.0 sizes e ∙ rw block (has_room_some fuel r.1 sizes rest room')
]

-- the used blocks once `a` was given out, or was given back; NULL stands for none
abbrev pub grown : ℕ → List ℕ → List ℕ
grown a us = if a == null then us else (a - 8) ∷ us

abbrev pub shrunk : ℕ → List ℕ → List ℕ
shrunk a us = if a == null then us else erase (a - 8) us

-- `a` is NULL or the address of a block that is given out
abbrev pub Given : List ℕ → ℕ → Type 0
Given us a = (a ≡ null) ⊎ ((8 ≤ a) × (has (a - 8) us ≡ true))

-- `a` is NULL or the address of a block that is not given out
abbrev pub Fresh : List ℕ → ℕ → Type 0
Fresh us a = (a ≡ null) ⊎ ((8 ≤ a) × (has (a - 8) us ≡ false))

length-erase_le : (p : ℕ) (xs : List ℕ) → length (erase p xs) ≤ length xs
length-erase_le p [] = omega arith
length-erase_le p (x ∷ xs) = ground (arith, length-erase_le p xs)

length-freed : (len : ℕ → ℕ) (f : ℕ) (fs : List ℕ) → length (freed len f fs) ≤ suc (length fs)
length-freed len f fs =
    let all = joined f (before_of len f fs null) fs in
    let le : length all ≤ suc (length fs) = ground arith in
    omega (arith, length-erase_le (f + 8 + len f) all)

grown_some : (p : ℕ) (us : List ℕ) → grown (p + 8) us ≡ p ∷ us
grown_some p us =
    let some_block : (p + 8 == null) ≡ false = ground arith in
    let back : p + 8 - 8 ≡ p = omega arith in rw some_block (rw back refl)

module _ (base total fuel : ℕ) where
  -- `kalloc` gives NULL or a block that was not in use.
  pub kalloc_step :
      (us : List ℕ) (n : ℕ) (k : Kalloc) (size : ℕ)
      → Holds base total fuel us (suc n) k
      → size < 4294967285
      → (a : ℕ) × (k' : Kalloc) × (kalloc fuel k size ≡ some (a, k'))
        × Holds base total fuel (grown a us) n k'
        × Fresh us a
  kalloc_step us n k size (fs, heap, on, ef, eu) small =
      let s = round_up size in
      let p = fit_of (lens k.region) s fs in
      elim (alloc_lem base total fuel k.region fs us size heap (omega arith) small) [
        | inl (none_fits, eq) ↦ (
          null,
          k,
          kalloc_eq fuel k size null k.region on eq,
          (fs, heap, on, omega arith, omega arith),
          inl refl,
        )
        | inr (r1, eq, i, heap1, len, sizes) ↦
            let grows = grown_some p us in
            let back : p + 8 - 8 ≡ p = omega arith in
            (
              p + 8,
              record k { region = r1 },
              kalloc_eq fuel k size (p + 8) r1 on eq,
              (
                (p + 8 + s) ∷ erase p fs,
                subst (λ l. IsHeap base total ((p + 8 + s) ∷ erase p fs) l r1) (sym grows) heap1,
                on,
                omega (arith, length-erase p fs i),
                omega (arith, ap length grows),
              ),
              inr (omega arith, rw (← back) at heap1.1.2),
            )
      ]

  -- `kfree` takes back a block that is given out, and does nothing to NULL.
  pub kfree_step :
      (us : List ℕ) (n : ℕ) (k : Kalloc) (a : ℕ)
      → Holds base total fuel us (suc n) k
      → Given us a
      → (k' : Kalloc) × (kfree fuel k a ≡ some k') × Holds base total fuel (shrunk a us) n k'
  kfree_step us n k a (fs, heap, on, ef, eu) (inl z) =
      let out : has 4294967288 us ≡ false = elim (Bool-cases (has 4294967288 us)) [
        | inr no_block ↦ no_block
        | inl block ↦
            let b = bounds base total (lens k.region) fs us 4294967288 heap.2 (ground arith) in
            absurd (omega (arith, heap.3))
      ] in
      let code =
        free_unused base total fuel k.region fs us null heap (omega arith) (omega arith) out in
      (
        k,
        subst (λ x. kfree fuel k x ≡ some k) (sym z)
            (kfree_eq fuel k null ret_failure k.region on code),
        subst (λ x. Holds base total fuel (shrunk x us) n k) (sym z)
            (fs, heap, on, omega arith, omega arith),
      )
  kfree_step us n k a (fs, heap, on, ef, eu) (inr (lo, used)) =
      let back =
        free_lem base total fuel k.region fs us (a - 8) heap (omega arith) (omega arith) used in
      let ne : (a == null) ≡ false = ground arith in
      let there : a - 8 + 8 ≡ a = omega arith in
      let less : shrunk a us ≡ erase (a - 8) us = rw ne refl in
      (
        record k { region = back.0 },
        subst (λ x. kfree fuel k x ≡ some (record k { region = back.0 })) there
            (kfree_eq fuel k (a - 8 + 8) ret_success back.0 on back.1),
        (
          freed (lens k.region) (a - 8) fs,
          rw less back.2,
          on,
          omega (arith, length-freed (lens k.region) (a - 8) fs),
          omega (arith, ap length less, length-erase_le (a - 8) us),
        ),
      )

-- Two blocks that are given out and then given back, in the same order, leave the list as it was.
pub shrunk-grown_twice :
    (a b : ℕ) (us : List ℕ)
    → Fresh us a
    → Fresh (grown a us) b
    → Given (grown b (grown a us)) a
      × Given (shrunk a (grown b (grown a us))) b
      × (shrunk b (shrunk a (grown b (grown a us))) ≡ us)
shrunk-grown_twice a b us (inl za) (inl zb) = (inl za, inl zb, ground arith)
shrunk-grown_twice a b us (inl za) (inr (lo, out)) = (inl za, inr (lo, ground arith), ground arith)
shrunk-grown_twice a b us (inr (lo, out)) (inl zb) = (inr (lo, ground arith), inl zb, ground arith)
shrunk-grown_twice a b us (inr (la, oa)) (inr (lb, ob)) =
    (inr (la, ground arith), inr (lb, ground arith), ground arith)

-- Two blocks are given out, and given back in the same order.
pub record Pair (base total fuel : ℕ) (us : List ℕ) (n : ℕ) (k : Kalloc) (size size' : ℕ)
    : Type 0 where
  pub a : ℕ
  pub b : ℕ
  pub k1 : Kalloc
  pub k2 : Kalloc
  pub k3 : Kalloc
  pub k4 : Kalloc
  pub first : kalloc fuel k size ≡ some (a, k1)
  pub second : kalloc fuel k1 size' ≡ some (b, k2)
  pub fresh_a : Fresh us a
  pub fresh_b : Fresh (grown a us) b
  pub holds : Holds base total fuel (grown b (grown a us)) (suc (suc n)) k2
  pub third : kfree fuel k2 a ≡ some k3
  pub fourth : kfree fuel k3 b ≡ some k4
  pub again : Holds base total fuel us n k4

pub both_calls :
    (base total fuel : ℕ) (us : List ℕ) (n : ℕ) (k : Kalloc) (size size' : ℕ)
    → Holds base total fuel us (suc (suc (suc (suc n)))) k
    → size < 4294967285
    → size' < 4294967285
    → Pair base total fuel us n k size size'
both_calls base total fuel us n k size size' holds small small' =
    let (a, k1, e1, h1, fresh_a) =
      kalloc_step base total fuel us (suc (suc (suc n))) k size holds small in
    let (b, k2, e2, h2, fresh_b) =
      kalloc_step base total fuel (grown a us) (suc (suc n)) k1 size' h1 small' in
    let (given_a, given_b, same) = shrunk-grown_twice a b us fresh_a fresh_b in
    let (k3, e3, h3) = kfree_step base total fuel (grown b (grown a us)) (suc n) k2 a h2 given_a in
    let (k4, e4, h4) =
      kfree_step base total fuel (shrunk a (grown b (grown a us))) n k3 b h3 given_b in
    record {
      a = a;
      b = b;
      k1 = k1;
      k2 = k2;
      k3 = k3;
      k4 = k4;
      first = e1;
      second = e2;
      fresh_a = fresh_a;
      fresh_b = fresh_b;
      holds = h2;
      third = e3;
      fourth = e4;
      again = subst (λ l. Holds base total fuel l n k4) same h4;
    }
