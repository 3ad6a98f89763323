-- ===== src/Alloc/Inv.antt =====
-- What holds of a region: two lists of blocks that together tile it.
use mathlib.Core.Path.{subst}
use eaburns_sos.Prelude.{
  not, sym, ℕ, zero, suc, ◌+◌, ◌%◌, ◌≤◌, ◌<◌, ◌≡◌, ◌≢◌, refl, Bool, true, false, ◌&&◌, ◌||◌, List,
  [], ◌∷◌, arith, ltb, leb, ◌==◌, if◌then◌else◌, Bool-cases, inl, inr, some, length,
}
use eaburns_sos.Prelude.Chain.{null, has, prev_of, Links}
use eaburns_sos.Alloc.{Region, round_up, find_fit}
use eaburns_sos.Alloc.Cover.{
  cover-frame, cover, inside, inside-le, inside-apart, inside_first, inside_last,
}

abbrev pub nexts : Region → ℕ → ℕ
nexts r a = (r.slot a).next

abbrev pub lens : Region → ℕ → ℕ
lens r a = (r.slot a).len

-- whether the address `x` is in the data part of the region
abbrev pub inner : (base size x : ℕ) → ℕ
inner base size x = if leb (base + 8) x && ltb x (base + size) then 1 else 0

-- Each address of the data part is in one block of the two lists, and no other address is.
abbrev pub Tiles : (base size : ℕ) → (len : ℕ → ℕ) → (fs us : List ℕ) → Type 0
Tiles base size len fs us = (x : ℕ) → cover len fs x + cover len us x ≡ inner base size x

-- whether no block of `xs` ends where one of `fs` begins
abbrev pub coalesced : (len : ℕ → ℕ) → (xs fs : List ℕ) → Bool
coalesced len [] fs = true
coalesced len (a ∷ xs) fs = not (has (a + 8 + len a) fs) && coalesced len xs fs

-- The blocks of the region are `fs` in the free list and `us` in the used list, and no free
-- block ends where another one begins.
abbrev pub IsHeap : (base size : ℕ) → (fs us : List ℕ) → Region → Type 0
IsHeap base size fs us r =
    Links (nexts r) r.free_list fs
    × Links (nexts r) r.used_list us
    × Tiles base size (lens r) fs us
    × (base + size < 4294967296)
    × (coalesced (lens r) fs fs ≡ true)

-- whether no block of the list has room for `size` bytes and another header
abbrev pub all_below : (len : ℕ → ℕ) → (size : ℕ) → List ℕ → Bool
all_below len size [] = true
all_below len size (a ∷ xs) = ltb (len a) (size + 8) && all_below len size xs

pub Tiles-frame :
    (base size : ℕ) (l m : ℕ → ℕ) (fs us : List ℕ)
    → Tiles base size l fs us
    → ((a : ℕ) → m a ≡ l a)
    → Tiles base size m fs us
Tiles-frame base size l m fs us tiles same x =
    omega
      (arith, tiles x, cover-frame l m fs x (λ a i. same a), cover-frame l m us x (λ a i. same a))

cover-le :
    (len : ℕ → ℕ) (fs us : List ℕ) (a x : ℕ)
    → (has a fs || has a us) ≡ true
    → inside len a x ≤ cover len fs x + cover len us x
cover-le len fs us a x h = elim (Bool-cases (has a fs)) [
  | inl i ↦ omega (arith, inside-le len a fs x i)
  | inr o ↦ omega (arith, inside-le len a us x (ground arith))
]

pub bounds :
    (base size : ℕ) (len : ℕ → ℕ) (fs us : List ℕ) (a : ℕ)
    → Tiles base size len fs us
    → (has a fs || has a us) ≡ true
    → (base + 8 ≤ a) × (a + 8 + len a ≤ base + size)
bounds base size len fs us a tiles h =
    let first : 1 ≤ inner base size a =
      omega (arith, cover-le len fs us a a h, inside_first len a, tiles a) in
    let last : 1 ≤ inner base size (a + 7 + len a) =
      omega
        (arith, cover-le len fs us a (a + 7 + len a) h, inside_last len a, tiles (a + 7 + len a)) in
    (ground arith, ground arith)

-- the first block of the list with room for `size` bytes and another header
abbrev pub fit_of : (len : ℕ → ℕ) → (size : ℕ) → List ℕ → ℕ
fit_of len size [] = null
fit_of len size (a ∷ xs) = if ltb (len a) (size + 8) then fit_of len size xs else a

pub fit_of_none :
    (n : ℕ → ℕ) (p : ℕ) (len : ℕ → ℕ) (size : ℕ) (xs : List ℕ)
    → Links n p xs
    → fit_of len size xs ≡ null
    → all_below len size xs ≡ true
fit_of_none n p len size [] c h = refl
fit_of_none n p len size (x ∷ xs) (q, ne, out, c) h =
    ground (arith, fit_of_none n (n x) len size xs c)

pub has-tail : (a x : ℕ) (xs : List ℕ) → has a xs ≡ true → has a (x ∷ xs) ≡ true
has-tail a x xs h = ground arith

pub fit_of_some :
    (len : ℕ → ℕ) (size : ℕ) (xs : List ℕ)
    → fit_of len size xs ≢ null
    → (has (fit_of len size xs) xs ≡ true) × (size + 8 ≤ len (fit_of len size xs))
fit_of_some len size [] h = absurd (h refl)
fit_of_some len size (x ∷ xs) h = elim (Bool-cases (ltb (len x) (size + 8))) [
  | inl low ↦
      let ih = fit_of_some len size xs (rw low at h) in
      let e : fit_of len size (x ∷ xs) ≡ fit_of len size xs = rw low refl in
      subst (λ q. (has q (x ∷ xs) ≡ true) × (size + 8 ≤ len q)) (sym e) (has-tail _ x xs ih.0, ih.1)
  | inr room ↦ rw room (ground arith, ground arith)
]

pub round_up_lem :
    (size : ℕ)
    → size < 4294967293
    → (size ≤ round_up size) × (round_up size < size + 4) × (round_up size % 4 ≡ 0)
unfolding round_up
round_up_lem size h = ground arith

fit_of-ne :
    (len : ℕ → ℕ) (size x : ℕ) (xs : List ℕ)
    → x ≢ null
    → has x xs ≡ false
    → (x == fit_of len size xs) ≡ false
fit_of-ne len size x [] ne out = ground arith
fit_of-ne len size x (y ∷ xs) ne out = ground (arith, fit_of-ne len size x xs ne)

-- The loop ends at the first block with room, and at NULL if there is none.
pub find_fit_lem :
    (fuel : ℕ) (r : Region) (size j p : ℕ) (xs : List ℕ)
    → Links (nexts r) p xs
    → length xs < fuel
    → size + 8 < 4294967296
    → let e = fit_of (lens r) size xs in find_fit fuel r size j p ≡ some (prev_of e j xs, e)
unfolding find_fit
find_fit_lem zero r size j p xs c h small = absurd (omega arith)
find_fit_lem (suc fuel) r size j p [] c h small = ground arith
find_fit_lem (suc fuel) r size j p (x ∷ xs) (q, ne, out, c) h small =
    elim (Bool-cases (ltb (lens r x) (size + 8))) [
      | inr room ↦ ground arith
      | inl low ↦
          ground (
            arith,
            find_fit_lem fuel r size x (nexts r x) xs c,
            fit_of-ne (lens r) size x xs ne out,
          )
    ]

pub inner-le : (base size x : ℕ) → inner base size x ≤ 1
inner-le base size x = ground arith

-- No used block begins in a free one, and no free block in another one.
pub apart_used :
    (base size : ℕ) (len : ℕ → ℕ) (fs us : List ℕ) (p a : ℕ)
    → Tiles base size len fs us
    → has p fs ≡ true
    → inside len p a ≡ 1
    → has a us ≡ false
apart_used base size len fs us p a tiles hp i = elim (Bool-cases (has a us)) [
  | inr out ↦ out
  | inl ha ↦ absurd (
      omega (
        arith,
        tiles a,
        inner-le base size a,
        inside-le len p fs a hp,
        inside-le len a us a ha,
        inside_first len a,
      ))
]

-- No block is on both lists.
pub apart :
    (base size : ℕ) (len : ℕ → ℕ) (fs us : List ℕ)
    → Tiles base size len fs us
    → (a : ℕ) → has a fs ≡ true
    → has a us ≡ false
apart base size len fs us tiles a h =
    apart_used base size len fs us a a tiles h (inside_first len a)

pub apart_free :
    (base size : ℕ) (len : ℕ → ℕ) (fs us : List ℕ) (p a : ℕ)
    → Tiles base size len fs us
    → has p fs ≡ true
    → (a == p) ≡ false
    → inside len p a ≡ 1
    → has a fs ≡ false
apart_free base size len fs us p a tiles hp ne i = elim (Bool-cases (has a fs)) [
  | inr out ↦ out
  | inl ha ↦
      let once : cover len fs a ≤ 1 = omega (arith, tiles a, inner-le base size a) in
      absurd (omega (arith, i, inside-apart len p a fs once hp ha ne))
]
