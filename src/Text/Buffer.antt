-- ===== src/Text/Buffer.antt =====
-- Strings in memory: `kstrlen`, `kstrcat` and `kstrcpy` of kernel/lib/kstring.c. The loops run on
-- fuel; `none` means that it ran out before a 0 was found.
use eaburns_sos.Prelude.{
  ℕ, zero, suc, ◌+◌, ◌-◌, ◌<◌, ◌≡◌, ◌≢◌, sym, ap, ◌∙◌, arith, Option, none, some, false, true, ◌==◌,
  if◌then◌else◌, u32,
}
use eaburns_sos.Screen.Memory.{Memory, write_8, memcpy}

-- the address of the 0 that ends the string at `p`
unfoldable pub walk : Memory → (fuel p : ℕ) → Option ℕ
walk m zero p = none
walk m (suc k) p = let rest = walk m k (p + 1) in if m p == 0 then some p else rest

unfoldable pub kstrlen : Memory → (fuel a : ℕ) → Option ℕ
kstrlen m fuel a = elim (walk m fuel a) [ none ↦ none | some p ↦ some (u32 (p - a)) ]

-- The second loop of `kstrcat`, and the 0 after it.
unfoldable pub cat_from : (fuel p q : ℕ) → Memory → Option Memory
cat_from zero p q m = none
cat_from (suc k) p q m =
    let rest = cat_from k (p + 1) (q + 1) (write_8 m p (m q)) in
    if m q == 0 then some (write_8 m p 0) else rest

unfoldable pub kstrcat : Memory → (fuel dest src : ℕ) → Option Memory
kstrcat m fuel dest src = elim (walk m fuel dest) [ none ↦ none | some p ↦ cat_from fuel p src m ]

unfoldable pub kstrcpy : Memory → (fuel dest src : ℕ) → Option Memory
kstrcpy m fuel dest src = elim (kstrlen m fuel src) [
  | none ↦ none
  | some len ↦ some (write_8 (memcpy m dest src len) (dest + len) 0)
]

-- With more fuel than the length of the string, its end is found.
pub walk_lem :
    (m : Memory) (n a fuel : ℕ)
    → ((i : ℕ) → i < n → m (a + i) ≢ 0)
    → m (a + n) ≡ 0
    → n < fuel
    → walk m fuel a ≡ some (a + n)
unfolding walk
walk_lem m n a zero inside end h = absurd (omega arith)
walk_lem m zero a (suc fuel) inside end h =
    let here : a ≡ a + 0 = omega arith in
    let yes : (m a == 0) ≡ true = ground (arith, ap m here ∙ end) in rw yes (ap some here)
walk_lem m (suc n) a (suc fuel) inside end h =
    let same : a ≡ a + 0 = omega arith in
    let first : m a ≢ 0 = λ e. inside 0 (omega arith) (sym (ap m same) ∙ e) in
    let other : (m a == 0) ≡ false = ground arith in
    let step : (i : ℕ) → a + 1 + i ≡ a + suc i = λ i. omega arith in
    rw other (
      walk_lem m n (a + 1) fuel (λ i p e. inside (suc i) (omega arith) (sym (ap m (step i)) ∙ e))
        (ap m (step n) ∙ end) (omega arith)
      ∙ ap some (step n))
