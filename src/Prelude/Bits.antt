-- ===== src/Prelude/Bits.antt =====
-- The bits of a number, and what the native bit operations do to each of them.
use Prim.Native.Nat.{
  ℕ, zero, suc, ◌+◌, ◌*◌, ◌/◌, ◌%◌, ◌^◌, ◌≤◌, ◌<◌, min, max, bit_and, bit_or, bit_xor, digits,
  differ, bit_and-bitwise, bit_or-bitwise, bit_xor-bitwise,
}
use mathlib.Core.Path.{◌≡◌, refl, sym, ap, ◌∙◌}
use mathlib.Core.Bool.{Bool, true, ◌&&◌}
use mathlib.Core.Logic.{◌≢◌, inl, inr}
use eaburns_sos.Prelude.Tests.{Nat-cases}
use native.Mathlib.Omega.{arith}
use native.Mathlib.Nat.{pow-suc}

-- bit `k` of `x`, 0 or 1
abbrev pub bit : ℕ → ℕ → ℕ
bit zero x = x % 2
bit (suc k) x = bit k (x / 2)

pub bit-lt-two : (k x : ℕ) → bit k x < 2
bit-lt-two zero x = omega arith
bit-lt-two (suc k) x = bit-lt-two k (x / 2)

-- What `digits` computes does not depend on how much fuel is left, as long as it suffices.
module _ (rest : ℕ → ℕ) (op : ℕ → ℕ → ℕ) where
  no_digit : (fuel y : ℕ) → digits rest op fuel 0 y ≡ rest y
  no_digit zero y = refl
  no_digit (suc fuel) y = refl

  any_fuel :
      (x y fuel fuel' : ℕ)
      → (x ≤ fuel) × (x ≤ fuel')
      → digits rest op fuel x y ≡ digits rest op fuel' x y
  any_fuel zero y fuel fuel' e = no_digit fuel y ∙ sym (no_digit fuel' y)
  any_fuel (suc x) y zero fuel' e = absurd (omega (arith, e))
  any_fuel (suc x) y (suc fuel) zero e = absurd (omega (arith, e))
  any_fuel (suc x) y (suc fuel) (suc fuel') e =
      ap (λ r. r * 2 + op (suc x % 2) (y % 2))
        (any_fuel (suc x / 2) (y / 2) fuel fuel' (omega (arith, e)))

  last_digit :
      (x y : ℕ)
      → ((w : ℕ) → rest w ≡ rest (w / 2) * 2 + op 0 (w % 2))
      → digits rest op x x y ≡ op (x % 2) (y % 2) + 2 * digits rest op (x / 2) (x / 2) (y / 2)
  last_digit zero y base = base y ∙ omega arith
  last_digit (suc x) y base =
      let halves = any_fuel (suc x / 2) (y / 2) x (suc x / 2) (omega arith) in omega (arith, halves)

-- The lowest bit of each operation, and the others.
pub and_halves : (x y : ℕ) → bit_and x y ≡ min (x % 2) (y % 2) + 2 * bit_and (x / 2) (y / 2)
and_halves x y =
    let whole = last_digit (λ w. zero) min x y (λ w. omega arith) in
    bit_and-bitwise x y ∙ (whole ∙ rw (bit_and-bitwise (x / 2) (y / 2)) refl)

pub or_halves : (x y : ℕ) → bit_or x y ≡ max (x % 2) (y % 2) + 2 * bit_or (x / 2) (y / 2)
or_halves x y =
    let whole = last_digit (λ w. w) max x y (λ w. omega arith) in
    bit_or-bitwise x y ∙ (whole ∙ rw (bit_or-bitwise (x / 2) (y / 2)) refl)

pub xor_halves : (x y : ℕ) → bit_xor x y ≡ differ (x % 2) (y % 2) + 2 * bit_xor (x / 2) (y / 2)
xor_halves x y =
    let whole = last_digit (λ w. w) differ x y (λ w. omega arith) in
    bit_xor-bitwise x y ∙ (whole ∙ rw (bit_xor-bitwise (x / 2) (y / 2)) refl)

-- Bit `k` of a conjunction is the smaller of the two bits.
pub bit-bit_and : (k a b : ℕ) → bit k (bit_and a b) ≡ min (bit k a) (bit k b)
bit-bit_and zero a b = omega (arith, and_halves a b)
bit-bit_and (suc k) a b =
    let half : bit_and a b / 2 ≡ bit_and (a / 2) (b / 2) = omega (arith, and_halves a b) in
    rw half (bit-bit_and k (a / 2) (b / 2))

-- Bit `k` of a disjunction is the larger of the two bits.
pub bit-bit_or : (k a b : ℕ) → bit k (bit_or a b) ≡ max (bit k a) (bit k b)
bit-bit_or zero a b = omega (arith, or_halves a b)
bit-bit_or (suc k) a b =
    let half : bit_or a b / 2 ≡ bit_or (a / 2) (b / 2) = omega (arith, or_halves a b) in
    rw half (bit-bit_or k (a / 2) (b / 2))

differ_small : (x y : ℕ) → x < 2 → y < 2 → differ x y ≡ (x + y) % 2
differ_small zero y p q = omega arith
differ_small (suc zero) zero p q = refl
differ_small (suc zero) (suc zero) p q = refl
differ_small (suc zero) (suc (suc y)) p q = absurd (omega arith)
differ_small (suc (suc x)) y p q = absurd (omega arith)

differ_bits : (a b : ℕ) → differ (a % 2) (b % 2) ≡ (a + b) % 2
differ_bits a b = differ_small (a % 2) (b % 2) (omega arith) (omega arith) ∙ omega arith

-- Bit `k` of an exclusive disjunction is the sum of the two bits, modulo 2.
pub bit-bit_xor : (k a b : ℕ) → bit k (bit_xor a b) ≡ (bit k a + bit k b) % 2
bit-bit_xor zero a b = omega (arith, xor_halves a b, differ_bits a b)
bit-bit_xor (suc k) a b =
    let half : bit_xor a b / 2 ≡ bit_xor (a / 2) (b / 2) =
      omega (arith, xor_halves a b, differ_bits a b) in
    rw half (bit-bit_xor k (a / 2) (b / 2))

-- A test that holds at every number below `n`, by evaluation.
unfoldable pub all_below : ℕ → (ℕ → Bool) → Bool
all_below zero test = true
all_below (suc last) test = all_below last test && test last

pub all_below_sound :
    (bound : ℕ) (test : ℕ → Bool) (x : ℕ) → all_below bound test ≡ true → x < bound → test x ≡ true
unfolding all_below
all_below_sound zero test x all small = absurd (omega arith)
all_below_sound (suc last) test x all small = elim (Nat-cases x last) [
  | inl same ↦ rw same (ground arith)
  | inr other ↦ all_below_sound last test x (ground arith) (omega (arith, other))
]

-- The bits that a byte keeps.
pub bit-u8 : (k x : ℕ) → k < 8 → bit k (x % 256) ≡ bit k x
bit-u8 zero x h = omega arith
bit-u8 (suc zero) x h = omega arith
bit-u8 (suc (suc zero)) x h = omega arith
bit-u8 (suc (suc (suc zero))) x h = omega arith
bit-u8 (suc (suc (suc (suc zero)))) x h = omega arith
bit-u8 (suc (suc (suc (suc (suc zero))))) x h = omega arith
bit-u8 (suc (suc (suc (suc (suc (suc zero)))))) x h = omega arith
bit-u8 (suc (suc (suc (suc (suc (suc (suc zero))))))) x h = omega arith
bit-u8 (suc (suc (suc (suc (suc (suc (suc (suc k)))))))) x h = absurd (omega arith)

and_zero : (fuel x : ℕ) → x ≤ fuel → bit_and x 0 ≡ 0
and_zero zero x small = let z : x ≡ 0 = omega arith in rw z refl
and_zero (suc fuel) x small = elim (Nat-cases x 0) [
  | inl z ↦ rw z refl
  | inr some_bit ↦
      let half = and_zero fuel (x / 2) (omega (arith, some_bit)) in
      omega (arith, and_halves x 0, half)
]

-- A mask of one bit gives that bit.
pub bit_and-pow : (j b : ℕ) → bit_and b (2 ^ j) ≡ bit j b * 2 ^ j
bit_and-pow zero b = omega (arith, and_halves b 1, and_zero (b / 2) (b / 2) (omega arith))
bit_and-pow (suc j) b =
    let twice : 2 ^ suc j ≡ 2 * 2 ^ j = omega (arith, pow-suc 2 j) in
    let half : 2 * 2 ^ j / 2 ≡ 2 ^ j = omega arith in
    let even : 2 * 2 ^ j % 2 ≡ 0 = omega arith in
    rw twice (
      omega (
        arith,
        and_halves b (2 * 2 ^ j),
        rw half at (and_halves b (2 * 2 ^ j)),
        even,
        bit_and-pow j (b / 2),
        ap (λ (t : ℕ). bit j (b / 2) * t) twice,
      ))

bit-zero : (k : ℕ) → bit k 0 ≡ 0
bit-zero zero = refl
bit-zero (suc k) = bit-zero k

-- A power of two has one bit.
pub bit-pow_self : (j : ℕ) → bit j (2 ^ j) ≡ 1
bit-pow_self zero = refl
bit-pow_self (suc j) =
    let half : 2 ^ suc j / 2 ≡ 2 ^ j = omega (arith, pow-suc 2 j) in rw half (bit-pow_self j)

pub bit-pow_ne : (j k : ℕ) → j ≢ k → bit k (2 ^ j) ≡ 0
bit-pow_ne zero zero ne = absurd (ne refl)
bit-pow_ne zero (suc k) ne = bit-zero k
bit-pow_ne (suc j) zero ne = omega (arith, pow-suc 2 j)
bit-pow_ne (suc j) (suc k) ne =
    let half : 2 ^ suc j / 2 ≡ 2 ^ j = omega (arith, pow-suc 2 j) in
    rw half (bit-pow_ne j k (λ e. ne (ap suc e)))
