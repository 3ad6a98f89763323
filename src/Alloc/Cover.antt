-- ===== src/Alloc/Cover.antt =====
-- How often the blocks of a list cover an address.
use eaburns_sos.Prelude.{
  map, ℕ, ◌+◌, ◌≤◌, ◌≡◌, refl, Bool, true, false, ◌&&◌, not, List, [], ◌∷◌, arith, ltb, leb, ◌==◌,
  if◌then◌else◌, Bool-cases, inl, inr, ==_iff,
}
use eaburns_sos.Prelude.Chain.{has, erase, not-has-erase, Links}

-- whether the address `x` is in the block at `a`, its header included
abbrev pub inside : (len : ℕ → ℕ) → (a x : ℕ) → ℕ
inside len a x = if leb a x && ltb x (a + 8 + len a) then 1 else 0

abbrev pub cover : (len : ℕ → ℕ) → List ℕ → ℕ → ℕ
cover len [] x = 0
cover len (a ∷ xs) x = inside len a x + cover len xs x

pub cover-frame :
    (l m : ℕ → ℕ) (xs : List ℕ) (x : ℕ)
    → ((a : ℕ) → has a xs ≡ true → m a ≡ l a)
    → cover m xs x ≡ cover l xs x
cover-frame l m [] x same = refl
cover-frame l m (a ∷ xs) x same =
    let here : m a ≡ l a = same a (ground arith) in
    rw here (rw (cover-frame l m xs x (λ b i. same b (ground arith))) refl)

-- One block of the list and the others.
pub cover-erase :
    (len : ℕ → ℕ) (a : ℕ) (xs : List ℕ) (x : ℕ)
    → has a xs ≡ true
    → cover len xs x ≡ inside len a x + cover len (erase a xs) x
cover-erase len a [] x h = absurd (cc)
cover-erase len a (b ∷ xs) x h = elim (Bool-cases (b == a)) [
  | inl found ↦ let e : b ≡ a = (==_iff _ _).0 found in rw found (rw e refl)
  | inr other ↦ let ih = cover-erase len a xs x (ground arith) in rw other (omega (arith, ih))
]

pub has-erase :
    (a b : ℕ) (xs : List ℕ) → (a == b) ≡ false → has a xs ≡ true → has a (erase b xs) ≡ true
has-erase a b [] ne h = absurd (cc)
has-erase a b (c ∷ xs) ne h = ground (arith, has-erase a b xs)

pub inside_first : (len : ℕ → ℕ) (a : ℕ) → inside len a a ≡ 1
inside_first len a = ground arith

pub inside_last : (len : ℕ → ℕ) (a : ℕ) → inside len a (a + 7 + len a) ≡ 1
inside_last len a = ground arith

-- A block of the list covers its addresses.
pub inside-le :
    (len : ℕ → ℕ) (a : ℕ) (xs : List ℕ) (x : ℕ) → has a xs ≡ true → inside len a x ≤ cover len xs x
inside-le len a xs x h = omega (arith, cover-erase len a xs x h)

-- No block of a list whose addresses are covered once at most begins in another one.
pub inside-apart :
    (len : ℕ → ℕ) (a b : ℕ) (xs : List ℕ)
    → cover len xs b ≤ 1
    → has a xs ≡ true
    → has b xs ≡ true
    → (b == a) ≡ false
    → inside len a b ≡ 0
inside-apart len a b xs once ha hb ne = omega (
  arith,
  cover-erase len a xs b ha,
  inside-le len b (erase a xs) b (has-erase b a xs ne hb),
  inside_first len b,
)

abbrev pub distinct : List ℕ → Bool
distinct [] = true
distinct (a ∷ xs) = not (has a xs) && distinct xs

pub not-has-distinct : (a : ℕ) (xs : List ℕ) → distinct xs ≡ true → has a (erase a xs) ≡ false
not-has-distinct a [] d = refl
not-has-distinct a (b ∷ xs) d = ground (arith, not-has-distinct a xs)

pub distinct-erase : (a : ℕ) (xs : List ℕ) → distinct xs ≡ true → distinct (erase a xs) ≡ true
distinct-erase a [] d = refl
distinct-erase a (b ∷ xs) d = ground (arith, distinct-erase a xs, not-has-erase b a xs)

pub Links-distinct : (n : ℕ → ℕ) (p : ℕ) (xs : List ℕ) → Links n p xs → distinct xs ≡ true
Links-distinct n p [] c = refl
Links-distinct n p (a ∷ xs) (q, ne, out, c) = rw out (Links-distinct n (n a) xs c)

pub ne-has : (a c : ℕ) (xs : List ℕ) → has a xs ≡ false → has c xs ≡ true → (c == a) ≡ false
ne-has a c [] ha hc = absurd (cc)
ne-has a c (b ∷ xs) ha hc = ground (arith, ne-has a c xs)

inside-merge :
    (l m : ℕ → ℕ) (a b x : ℕ)
    → b ≡ a + 8 + l a
    → m a ≡ l a + 8 + l b
    → inside m a x ≡ inside l b x + inside l a x
inside-merge l m a b x adj long = ground arith

-- Blocks `a` and `b` that lie next to each other are merged into the first.
pub cover-merge :
    (l m : ℕ → ℕ) (a b : ℕ) (xs : List ℕ) (x : ℕ)
    → distinct xs ≡ true
    → has a xs ≡ true
    → has b xs ≡ true
    → (a == b) ≡ false
    → b ≡ a + 8 + l a
    → m a ≡ l a + 8 + l b
    → ((c : ℕ) → (c == a) ≡ false → m c ≡ l c)
    → cover m (erase b xs) x ≡ cover l xs x
cover-merge l m a b xs x d ha hb ne adj long same =
    let bs = erase b xs in
    let ha' : has a bs ≡ true = has-erase a b xs ne ha in
    let out : has a (erase a bs) ≡ false = not-has-distinct a bs (distinct-erase b xs d) in
    let rest : cover m (erase a bs) x ≡ cover l (erase a bs) x =
      cover-frame l m (erase a bs) x (λ c i. same c (ne-has a c (erase a bs) out i)) in
    omega (
      arith,
      rest,
      cover-erase m a bs x ha',
      cover-erase l b xs x hb,
      cover-erase l a bs x ha',
      inside-merge l m a b x adj long,
    )

pub map-frame :
    (l m : ℕ → ℕ) (xs : List ℕ) → ((a : ℕ) → has a xs ≡ true → m a ≡ l a) → map m xs ≡ map l xs
map-frame l m [] same = refl
map-frame l m (x ∷ xs) same =
    rw (same x (ground arith)) (rw (map-frame l m xs (λ a i. same a (ground arith))) refl)
