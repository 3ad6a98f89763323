-- ===== src/Prelude/Chain.antt =====
-- Singly linked chains of addresses: `next` gives the address after each, and 0 ends a chain.
use Prim.Native.Nat.{ℕ}
use mathlib.Core.Path.{◌≡◌, refl}
use mathlib.Core.Logic.{◌≢◌, inl, inr}
use mathlib.Core.Bool.{Bool, true, false, not, ◌&&◌, ◌||◌}
use mathlib.Core.List.{List, [], ◌∷◌, ◌++◌}
use native.Mathlib.Omega.{arith}
use eaburns_sos.Prelude.Tests.{◌==◌, ==_iff, if◌then◌else◌, Bool-cases}

abbrev pub null : ℕ
null = 0

abbrev pub has : ℕ → List ℕ → Bool
has e [] = false
has e (x ∷ xs) = (x == e) || has e xs

-- From `p` the `next` pointers lead through the distinct addresses `xs` to NULL.
abbrev pub Links : (ℕ → ℕ) → ℕ → List ℕ → Type 0
Links n p [] = p ≡ null
Links n p (x ∷ xs) = (p ≡ x) × (x ≢ null) × (has x xs ≡ false) × Links n (n x) xs

abbrev pub erase : ℕ → List ℕ → List ℕ
erase e [] = []
erase e (x ∷ xs) = if x == e then xs else x ∷ erase e xs

-- the address before `e`, where `j` stands before the list
abbrev pub prev_of : (e j : ℕ) → List ℕ → ℕ
prev_of e j [] = j
prev_of e j (x ∷ xs) = if x == e then j else prev_of e x xs

-- A chain survives a change that spares the `next` of its addresses.
pub Links-frame :
    (n m : ℕ → ℕ) (p : ℕ) (xs : List ℕ)
    → Links n p xs
    → ((a : ℕ) → has a xs ≡ true → m a ≡ n a)
    → Links m p xs
Links-frame n m p [] c same = c
Links-frame n m p (x ∷ xs) (e, ne, out, c) same =
    (e, ne, out, rw (same x (ground arith)) (Links-frame n m _ xs c (λ a i. same a (ground arith))))

pub not-has-erase : (a e : ℕ) (xs : List ℕ) → has a xs ≡ false → has a (erase e xs) ≡ false
not-has-erase a e [] h = refl
not-has-erase a e (x ∷ xs) h = ground (arith, not-has-erase a e xs)

pub not-has-erase_self :
    (n : ℕ → ℕ) (p e : ℕ) (xs : List ℕ) → Links n p xs → has e (erase e xs) ≡ false
not-has-erase_self n p e [] c = refl
not-has-erase_self n p e (x ∷ xs) (q, ne, out, c) =
    ground (arith, not-has-erase_self n (n x) e xs c)

-- The address before one of the list is the start or in the list.
pub prev_of-has : (e j : ℕ) (xs : List ℕ) → (j == prev_of e j xs || has (prev_of e j xs) xs) ≡ true
prev_of-has e j [] = ground arith
prev_of-has e j (x ∷ xs) = ground (arith, prev_of-has e x xs)

-- Linking the address before `e` to the one after it takes `e` out of the chain.
pub Links-relink :
    (n m : ℕ → ℕ) (e p x : ℕ) (xs : List ℕ)
    → Links n p (x ∷ xs)
    → has e xs ≡ true
    → ((a : ℕ) → m a ≡ (if a == prev_of e x xs then n e else n a))
    → Links m p (x ∷ erase e xs)
Links-relink n m e p x [] c h step = absurd (cc)
Links-relink n m e p x (y ∷ ys) (q, ne, out, (q', ne', out', c)) h step =
    elim (Bool-cases (y == e)) [
      | inl found ↦
          let e' : y ≡ e = ground arith in
          let here : m x ≡ n y = ground (arith, step x) in
          let rest : Links m (n y) ys =
            Links-frame n m (n y) ys c (λ a i. ground (arith, step a)) in
          rw found (q, ne, ground arith, rw here rest)
      | inr other ↦
          let apart : (x == prev_of e y ys) ≡ false = ground (arith, prev_of-has e y ys) in
          let here : m x ≡ n x = ground (arith, step x) in
          let rest : Links m (n x) (y ∷ erase e ys) =
            Links-relink n m e (n x) y ys (q', ne', out', c) (ground arith)
              (λ a. rw other at (step a)) in
          rw other (q, ne, ground (arith, not-has-erase x e ys), rw here rest)
    ]

pub has-null-Links : (n : ℕ → ℕ) (p : ℕ) (xs : List ℕ) → Links n p xs → has null xs ≡ false
has-null-Links n p [] c = refl
has-null-Links n p (x ∷ xs) (q, ne, out, c) = ground (arith, has-null-Links n (n x) xs c)

pub prev_of-Links :
    (n : ℕ → ℕ) (e p x : ℕ) (xs : List ℕ) → Links n p (x ∷ xs) → (prev_of e x xs == null) ≡ false
prev_of-Links n e p x xs (q, ne, out, c) = elim (Bool-cases (prev_of e x xs == null)) [
  | inr other ↦ other
  | inl bad ↦
      let z : prev_of e x xs ≡ null = (==_iff _ _).0 bad in
      let k : (x == null || has null xs) ≡ true = rw z at (prev_of-has e x xs) in
      absurd (ground (arith, has-null-Links n (n x) xs c))
]

pub erase_self : (e : ℕ) (xs : List ℕ) → has e xs ≡ false → erase e xs ≡ xs
erase_self e [] h = refl
erase_self e (x ∷ xs) h = ground (arith, erase_self e xs)

abbrev pub first : List ℕ → ℕ
first [] = null
first (x ∷ xs) = x

pub Links-first : (n : ℕ → ℕ) (p : ℕ) (xs : List ℕ) → Links n p xs → p ≡ first xs
Links-first n p [] c = c
Links-first n p (x ∷ xs) c = c.0

-- the chain from a point on
pub Links-drop : (n : ℕ → ℕ) (p : ℕ) (ps xs : List ℕ) → Links n p (ps ++ xs) → Links n (first xs) xs
Links-drop n p [] [] c = refl
Links-drop n p [] (x ∷ xs) (q, ne, out, c) = (refl, ne, out, c)
Links-drop n p (y ∷ ps) xs (q, ne, out, c) = Links-drop n (n y) ps xs c

has-append : (a : ℕ) (xs ys : List ℕ) → has a (xs ++ ys) ≡ (has a xs || has a ys)
has-append a [] ys = refl
has-append a (x ∷ xs) ys = ground (arith, has-append a xs ys)

pub has-middle : (x : ℕ) (ps ys : List ℕ) → has x (ps ++ (x ∷ ys)) ≡ true
has-middle x ps ys = ground (arith, has-append x ps (x ∷ ys))

pub has_prefix-Links :
    (n : ℕ → ℕ) (p x : ℕ) (ps ys : List ℕ) → Links n p (ps ++ (x ∷ ys)) → has x ps ≡ false
has_prefix-Links n p x [] ys c = refl
has_prefix-Links n p x (y ∷ ps) ys (q, ne, out, c) =
    ground (arith, has_prefix-Links n (n y) x ps ys c, has-append y ps (x ∷ ys))

pub erase-middle : (x : ℕ) (ps ys : List ℕ) → has x ps ≡ false → erase x (ps ++ (x ∷ ys)) ≡ ps ++ ys
erase-middle x [] ys h = ground arith
erase-middle x (y ∷ ps) ys h = ground (arith, erase-middle x ps ys)

pub prev_of-ne :
    (e j : ℕ) (xs : List ℕ) → (j == e) ≡ false → has e xs ≡ true → (prev_of e j xs == e) ≡ false
prev_of-ne e j [] hj h = absurd (cc)
prev_of-ne e j (x ∷ xs) hj h = ground (arith, prev_of-ne e x xs)

-- Taking `e` out at the head moves the head, and elsewhere relinks the address before `e`.
pub Links-unlink :
    (n m : ℕ → ℕ) (e p : ℕ) (xs : List ℕ)
    → Links n p xs
    → has e xs ≡ true
    → ((a : ℕ)
        → m a ≡ (if not (prev_of e null xs == null) && (a == prev_of e null xs) then n e else n a))
    → Links m (if prev_of e null xs == null then n p else p) (erase e xs)
Links-unlink n m e p [] c h step = absurd (cc)
Links-unlink n m e p (x ∷ xs) (q, ne, out, c) h step = elim (Bool-cases (x == e)) [
  | inl found ↦ rw found (rw q (Links-frame n m (n x) xs c (λ a i. rw found at (step a))))
  | inr other ↦
      let j = prev_of-Links n e p x xs (q, ne, out, c) in
      let step' : (a : ℕ) → m a ≡ (if a == prev_of e x xs then n e else n a) =
        λ a. ground (arith, step a) in
      rw other (rw j (Links-relink n m e p x xs (q, ne, out, c) (ground arith) step'))
]

-- Linking `e` before the chain.
pub Links-push :
    (n m : ℕ → ℕ) (e p : ℕ) (xs : List ℕ)
    → Links n p xs
    → e ≢ null
    → has e xs ≡ false
    → m e ≡ p
    → ((a : ℕ) → has a xs ≡ true → m a ≡ n a)
    → Links m e (e ∷ xs)
Links-push n m e p xs c ne out here same = (refl, ne, out, rw here (Links-frame n m p xs c same))
