-- ===== src/Text/Number/Laws.antt =====
-- What kernel/lib/kstdio.c prints for a number.
use native.Mathlib.Nat.{pow-suc}
use eaburns_sos.Prelude.{
  ℕ, zero, suc, ◌+◌, ◌-◌, ◌*◌, ◌/◌, ◌%◌, ◌^◌, ◌≤◌, ◌<◌, ◌≡◌, ◌∙◌, refl, arith, List, [], ◌∷◌, false,
  leb, ◌==◌, if◌then◌else◌, Bool-cases, inl, inr,
}
use eaburns_sos.Text.Number.{
  LetterCase, itoa_null, itoa_uppercase, itoa_lowercase, digit_char, itoa_digits, itoa,
  itoa_buff_len, reverse_onto,
}

-- the digit that a character stands for
abbrev pub digit_of : ℕ → ℕ
digit_of c = if leb c b'9' then c - b'0' else if leb c b'F' then c - 55 else c - 87

-- the value of a text in a base, read from its start after the value `v`
abbrev pub value_from : (base v : ℕ) → List ℕ → ℕ
value_from base v [] = v
value_from base v (c ∷ cs) = value_from base (v * base + digit_of c) cs

-- the value of the digits that have been buffered, the last one first
abbrev pub value_back : ℕ → List ℕ → ℕ
value_back base [] = 0
value_back base (c ∷ cs) = value_back base cs * base + digit_of c

-- a base, and the letters that it is printed with
pub data IsFormat : ℕ → LetterCase → Type 0 where
  decimal : IsFormat 10 itoa_null
  octal : IsFormat 8 itoa_null
  upper : IsFormat 16 itoa_uppercase
  lower : IsFormat 16 itoa_lowercase

digit-char :
    (base : ℕ) (flags : LetterCase) (d : ℕ)
    → IsFormat base flags
    → d < base
    → digit_of (digit_char flags d) ≡ d
digit-char base flags d decimal h = ground arith
digit-char base flags d octal h = ground arith
digit-char base flags d upper h = ground arith
digit-char base flags d lower h = ground arith

-- one step of the loop, in numbers
step_facts :
    (base : ℕ) (flags : LetterCase) (i : ℕ)
    → IsFormat base flags
    → (i / base * base + i % base ≡ i) × (i % base < base) × (8 * (i / base) ≤ i)
step_facts base flags i decimal = omega arith
step_facts base flags i octal = omega arith
step_facts base flags i upper = omega arith
step_facts base flags i lower = omega arith

more_room : (k i : ℕ) → i < 8 ^ suc k → 8 ≤ i → 1 ≤ k
more_room zero i h p = absurd (omega arith)
more_room (suc k) i h p = omega arith

module _ (base : ℕ) (flags : LetterCase) (f : IsFormat base flags) where
  digits_lem :
      (k i : ℕ)
      → i < 8 ^ k
      → 1 ≤ k
      → ((itoa_digits flags base k i).0 ≡ false)
        × (value_back base (itoa_digits flags base k i).1 ≡ i)
  unfolding itoa_digits
  digits_lem zero i h pos = absurd (omega arith)
  digits_lem (suc k) i h room =
      let (split, small, smaller) = step_facts base flags i f in
      let d = digit-char base flags (i % base) f small in
      elim (Bool-cases (i / base == 0)) [
        | inl t ↦
            let z : i / base ≡ 0 = ground arith in
            let e : 0 * base + i % base ≡ i = rw z at split in rw t (refl, rw d e)
        | inr n ↦
            let pos : 1 ≤ i / base = ground arith in
            let more : 1 ≤ k = more_room k i h (omega (arith, pos, smaller)) in
            let (ok, value) = digits_lem k (i / base) (omega (arith, smaller, pow-suc 8 k)) more in
            rw n (ok, rw (value, d) split)
      ]

  value-reverse_onto :
      (cs acc : List ℕ)
      → value_from base 0 (reverse_onto cs acc) ≡ value_from base (value_back base cs) acc
  value-reverse_onto [] acc = refl
  value-reverse_onto (c ∷ cs) acc = value-reverse_onto cs (c ∷ acc)

  -- In each of the formats, `itoa` prints a uint32 without overflowing its buffer, and what it
  -- prints, read in the base, is the number.
  pub itoa_lem :
      (i : ℕ)
      → i < 4294967296
      → ((itoa_digits flags base itoa_buff_len i).0 ≡ false)
        × (value_from base 0 (itoa i base flags) ≡ i)
  unfolding itoa
  itoa_lem i h =
      let (ok, value) = digits_lem 20 i (omega arith) (omega arith) in
      (ok, rw ok (value-reverse_onto (itoa_digits flags base 20 i).1 [] ∙ value))
