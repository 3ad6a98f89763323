-- ===== src/Alloc/Scan.antt =====
-- The loops of `free`: over the used list for the block, and over the free list for its neighbours.
use mathlib.Core.Path.{subst}
use eaburns_sos.Prelude.{
  sym, ◌∙◌, ℕ, zero, suc, ◌+◌, ◌<◌, ◌≡◌, ◌≢◌, ◌⊎◌, refl, true, false, List, [], ◌∷◌, arith, ◌==◌,
  if◌then◌else◌, Bool-cases, inl, inr, some, ==_iff, length,
}
use eaburns_sos.Prelude.Chain.{null, has, prev_of, Links}
use eaburns_sos.Alloc.{Region, Adjacent, find_used, find_adjacent, look, block_end}
use eaburns_sos.Alloc.Inv.{nexts, lens, has-tail}

-- The walk ends at `f` if it is used, and at NULL if not.
pub find_used_lem :
    (fuel : ℕ) (r : Region) (f j p : ℕ) (xs : List ℕ)
    → f ≢ null
    → Links (nexts r) p xs
    → length xs < fuel
    → find_used fuel r f j p ≡ some (prev_of f j xs, if has f xs then f else null)
unfolding find_used
find_used_lem zero r f j p xs ne c h = absurd (omega arith)
find_used_lem (suc fuel) r f j p [] ne c h = ground arith
find_used_lem (suc fuel) r f j p (x ∷ xs) ne (q, nx, out, c) h =
    ground (arith, find_used_lem fuel r f x (nexts r x) xs ne c)

-- the last block of the list that ends where `f` begins, and `b` if none does
abbrev pub before_of : (len : ℕ → ℕ) → (f : ℕ) → List ℕ → (b : ℕ) → ℕ
before_of len f [] b = b
before_of len f (x ∷ xs) b = before_of len f xs (if x + 8 + len x == f then x else b)

pub before_of_cases :
    (len : ℕ → ℕ) (f : ℕ) (xs : List ℕ) (b : ℕ)
    → (before_of len f xs b ≡ b)
      ⊎ ((has (before_of len f xs b) xs ≡ true)
          × (before_of len f xs b + 8 + len (before_of len f xs b) ≡ f))
before_of_cases len f [] b = inl refl
before_of_cases len f (x ∷ xs) b =
    let b' = if x + 8 + len x == f then x else b in
    let q = before_of len f xs b' in
    elim (before_of_cases len f xs b') [
      | inr found ↦ inr (has-tail q x xs found.0, found.1)
      | inl same ↦ elim (Bool-cases (x + 8 + len x == f)) [
        | inr other ↦ inl (same ∙ rw other refl)
        | inl here ↦
            let e : q ≡ x = same ∙ rw here refl in
            inr (
              subst (λ y. (has y (x ∷ xs) ≡ true) × (y + 8 + len y ≡ f)) (sym e)
                (ground arith, (==_iff _ _).0 here))
      ]
    ]

-- the neighbours that the loop finds among `xs`, of which `j` stands before the first
abbrev pub adjacent_of : (len : ℕ → ℕ) → (f j : ℕ) → List ℕ → Adjacent → Adjacent
adjacent_of len f j xs s =
    let e = f + 8 + len f in
    record {
      before = before_of len f xs s.before;
      after = if has e xs then e else s.after;
      after_prev = if has e xs then prev_of e j xs else s.after_prev;
    }

-- No block of the list ends above 2 ^ 32.
abbrev pub Low : (len : ℕ → ℕ) → List ℕ → Type 0
Low len xs = (a : ℕ) → has a xs ≡ true → a + 8 + len a < 4294967296

scan_step :
    (r : Region) (f j x : ℕ) (xs : List ℕ) (s : Adjacent)
    → has x xs ≡ false
    → x + 8 + lens r x < 4294967296
    → f + 8 + lens r f < 4294967296
    → adjacent_of (lens r) f x xs (look r f j x s) ≡ adjacent_of (lens r) f j (x ∷ xs) s
unfolding look block_end
scan_step r f j x xs s out low lowf =
    let e = f + 8 + lens r f in
    elim (Bool-cases (x + 8 + lens r x == f)) [
      | inl here ↦
          let look' : look r f j x s ≡ record s { before = x } = ground arith in
          let ne : (x == e) ≡ false = ground arith in rw look' (rw here (rw ne refl))
      | inr above ↦ elim (Bool-cases (x == e)) [
        | inl here ↦
            let look' : look r f j x s ≡ record s { after = x; after_prev = j } = ground arith in
            let x_is : x ≡ e = (==_iff _ _).0 here in
            let out' : has e xs ≡ false = rw x_is at out in
            rw look' (rw above (rw here (rw out' (rw x_is refl))))
        | inr other ↦
            let look' : look r f j x s ≡ s = ground arith in rw look' (rw above (rw other refl))
      ]
    ]

pub find_adjacent_lem :
    (fuel : ℕ) (r : Region) (f j p : ℕ) (s : Adjacent) (xs : List ℕ)
    → Links (nexts r) p xs
    → length xs < fuel
    → Low (lens r) xs
    → f + 8 + lens r f < 4294967296
    → find_adjacent fuel r f j p s ≡ some (adjacent_of (lens r) f j xs s)
unfolding find_adjacent
find_adjacent_lem zero r f j p s xs c h low lowf = absurd (omega arith)
find_adjacent_lem (suc fuel) r f j p s [] c h low lowf = ground arith
find_adjacent_lem (suc fuel) r f j p s (x ∷ xs) (q, ne, out, c) h low lowf =
    let ih =
      find_adjacent_lem fuel r f x (nexts r x) (look r f j x s) xs c (ground arith)
        (λ a i. low a (ground arith)) lowf in
    rw q (ground (arith, ih, scan_step r f j x xs s out (low x (ground arith)) lowf))
