-- ===== src/Kbd/Keys/Flags.antt =====
-- What the flag operations of kernel/dev/bcon_kbd.c do to each of the 16 bits of `kbd_state`.
use eaburns_sos.Prelude.{
  ℕ, ◌+◌, ◌%◌, ◌^◌, ◌<◌, ◌≡◌, refl, Bool, true, arith, leb, ◌==◌, if◌then◌else◌, bit_xor, ==_iff,
}
use eaburns_sos.Prelude.Bits.{
  bit, bit-lt-two, bit-bit_and, bit-bit_or, bit-bit_xor, all_below, all_below_sound,
}
use eaburns_sos.Kbd.Keys.{clear_mask, raise, lower}

-- a property of two bit numbers below 16, by evaluation
table : (ℕ → ℕ → Bool) → Bool
unfolding all_below
table p = all_below 16 (λ j. all_below 16 (p j))

table_sound : (p : ℕ → ℕ → Bool) (j k : ℕ) → table p ≡ true → j < 16 → k < 16 → p j k ≡ true
unfolding table
table_sound p j k h hj hk =
    all_below_sound 16 (p j) k (all_below_sound 16 (λ j. all_below 16 (p j)) j h hj) hk

bit-pow : (j k : ℕ) → j < 16 → k < 16 → bit k (2 ^ j) ≡ (if j == k then 1 else 0)
unfolding table
bit-pow j k hj hk =
    (==_iff _ _).0 (table_sound (λ j k. bit k (2 ^ j) == (if j == k then 1 else 0)) j k refl hj hk)

bit-clear_mask : (j k : ℕ) → j < 16 → k < 16 → bit k (clear_mask j) ≡ (if leb k j then 0 else 1)
unfolding table
bit-clear_mask j k hj hk =
    (==_iff _ _).0
      (table_sound (λ j k. bit k (clear_mask j) == (if leb k j then 0 else 1)) j k refl hj hk)

-- Setting flag `j` sets bit `j` and no other.
pub bit-raise : (s j k : ℕ) → j < 16 → k < 16 → bit k (raise s j) ≡ (if j == k then 1 else bit k s)
unfolding raise
bit-raise s j k hj hk = ground (arith, bit-bit_or k s (2 ^ j), bit-pow j k hj hk, bit-lt-two k s)

-- Clearing flag `j` clears bit `j` and every bit below it.
pub bit-lower : (s j k : ℕ) → j < 16 → k < 16 → bit k (lower s j) ≡ (if leb k j then 0 else bit k s)
unfolding lower
bit-lower s j k hj hk =
    ground (arith, bit-bit_and k s (clear_mask j), bit-clear_mask j k hj hk, bit-lt-two k s)

-- Toggling flag `j` flips bit `j` and no other.
pub bit-toggle :
    (s j k : ℕ)
    → j < 16
    → k < 16
    → bit k (bit_xor s (2 ^ j)) ≡ (if j == k then (bit k s + 1) % 2 else bit k s)
bit-toggle s j k hj hk = ground (arith, bit-bit_xor k s (2 ^ j), bit-pow j k hj hk, bit-lt-two k s)
