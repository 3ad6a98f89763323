-- ===== src/Alloc/Kalloc.antt =====
-- The kernel's own heap: kernel/lib/kalloc.c, configured with KALLOC_ROBUST.
use eaburns_sos.Prelude.{
  ℕ, suc, ◌+◌, ◌<◌, ◌≡◌, ◌∙◌, ap, ◌≢◌, ◌⊎◌, refl, true, ◌==◌, if◌then◌else◌, Option, some,
  ReturnCode, ◌>>=◌, inl, inr, List, [], ◌∷◌, arith, length, ret_success,
}
use eaburns_sos.Prelude.Chain.{null, has, erase}
use eaburns_sos.Alloc.{Region, init_alloc, alloc, free, round_up}
use eaburns_sos.Alloc.Inv.{IsHeap, lens, fit_of}
use eaburns_sos.Alloc.Take.{alloc_lem}
use eaburns_sos.Alloc.Free.{free_lem, freed}

-- The statics `kalloc_base` and `inited`, and the region.
pub record Kalloc : Type 0 where
  pub kalloc_base : ℕ
  pub inited : ℕ
  pub region : Region

unfoldable pub kalloc_init : Kalloc → (base len : ℕ) → ReturnCode × Kalloc
kalloc_init k base len =
    let (code, r) = init_alloc base len k.region in
    (code, record { kalloc_base = base; inited = 1; region = r })

unfoldable pub kalloc : ℕ → Kalloc → ℕ → Option (ℕ × Kalloc)
kalloc fuel k size =
    if k.inited == 0
    then some (null, k)
    else (do (p, r) ← alloc fuel k.region size; some (p, record k { region = r }))

unfoldable pub kfree : ℕ → Kalloc → ℕ → Option Kalloc
kfree fuel k slot =
    if k.inited == 0
    then some k
    else (do (code, r) ← free fuel k.region slot; some (record k { region = r }))

-- `kalloc_get_base`
unfoldable pub kalloc_get_base : Kalloc → ℕ
kalloc_get_base k = k.kalloc_base

pub length-erase : (p : ℕ) (xs : List ℕ) → has p xs ≡ true → suc (length (erase p xs)) ≡ length xs
length-erase p [] h = absurd (cc)
length-erase p (x ∷ xs) h = ground (arith, length-erase p xs)

pub kalloc_eq :
    (fuel : ℕ) (k : Kalloc) (size a : ℕ) (r : Region)
    → k.inited ≡ 1
    → alloc fuel k.region size ≡ some (a, r)
    → kalloc fuel k size ≡ some (a, record k { region = r })
unfolding kalloc
kalloc_eq fuel k size a r on h = rw on (rw h refl)

pub kfree_eq :
    (fuel : ℕ) (k : Kalloc) (a : ℕ) (c : ReturnCode) (r : Region)
    → k.inited ≡ 1
    → free fuel k.region a ≡ some (c, r)
    → kfree fuel k a ≡ some (record k { region = r })
unfolding kfree
kfree_eq fuel k a c r on h = rw on (rw h refl)

-- an equation about `kfree` at equal arguments
pub kfree_at :
    (fuel : ℕ) {k k' : Kalloc} {a a' : ℕ} {o : Option Kalloc}
    → k ≡ k'
    → a ≡ a'
    → kfree fuel k' a' ≡ o
    → kfree fuel k a ≡ o
kfree_at fuel {k' = k'} {a = a} ek ea h = ap (λ x. kfree fuel x a) ek ∙ ap (kfree fuel k') ea ∙ h

-- On an initialised heap that holds, `kalloc` returns NULL and changes nothing, or what it returns can
-- be given back: `kfree` succeeds on it, and the heap holds again with the used blocks of before.
pub kalloc-kfree :
    (base total fuel : ℕ) (k : Kalloc) (fs us : List ℕ) (size : ℕ)
    → k.inited ≡ 1
    → IsHeap base total fs us k.region
    → length fs < fuel
    → length us + 1 < fuel
    → size < 4294967285
    → (kalloc fuel k size ≡ some (null, k))
      ⊎ ((a : ℕ) × (k1 : Kalloc) × (k2 : Kalloc) × (kalloc fuel k size ≡ some (a, k1))
          × (a ≢ null)
          × (kfree fuel k1 a ≡ some k2)
          × ((gs : List ℕ) × IsHeap base total gs us k2.region))
kalloc-kfree base total fuel k fs us size on heap ef eu small =
    let s = round_up size in
    let p = fit_of (lens k.region) s fs in
    elim (alloc_lem base total fuel k.region fs us size heap ef small) [
      | inl (none_fits, eq) ↦ inl (kalloc_eq fuel k size null k.region on eq)
      | inr (r1, eq, i, heap1, len, sizes) ↦
          let used : has p (p ∷ us) ≡ true = ground arith in
          let short : length ((p + 8 + s) ∷ erase p fs) < fuel =
            omega (arith, length-erase p fs i) in
          let back =
            free_lem base total fuel r1 ((p + 8 + s) ∷ erase p fs) (p ∷ us) p heap1 short
              (omega arith) used in
          let k1 = record k { region = r1 } in
          let one : erase p (p ∷ us) ≡ us = ground arith in
          inr (
            p + 8,
            k1,
            record k1 { region = back.0 },
            kalloc_eq fuel k size (p + 8) r1 on eq,
            omega arith,
            kfree_eq fuel k1 (p + 8) ret_success back.0 on back.1,
            (freed (lens r1) p ((p + 8 + s) ∷ erase p fs), rw one at back.2),
          )
    ]

-- Before `kalloc_init`, nothing is allocated and nothing is freed.
pub kalloc_uninited :
    (fuel : ℕ) (k : Kalloc) (n : ℕ)
    → k.inited ≡ 0
    → (kalloc fuel k n ≡ some (null, k)) × (kfree fuel k n ≡ some k)
unfolding kalloc kfree
kalloc_uninited fuel k n off = (rw off refl, rw off refl)
