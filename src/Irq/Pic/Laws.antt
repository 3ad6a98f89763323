-- ===== src/Irq/Pic/Laws.antt =====
-- Which lines of the 8259 controllers the mask operations of kernel/arch/i386/8259_pic.c change.
-- A line is masked where its bit is 1.
use eaburns_sos.Prelude.{
  ℕ, ◌+◌, ◌-◌, ◌%◌, ◌<◌, ◌≤◌, ◌≡◌, ◌⊎◌, inl, inr, List, Bool-cases, refl, arith, [], ◌∷◌, Bool, ltb,
  ◌==◌, if◌then◌else◌, ==_iff, u8, bit_and, bit_or,
}
use eaburns_sos.Prelude.Bits.{
  bit, bit-lt-two, bit-u8, bit-bit_and, bit-bit_or, all_below, all_below_sound,
}
use eaburns_sos.Irq.{Out, out}
use eaburns_sos.Irq.Pic.{enable_irq, disable_irq, all_but}

table : (ℕ → ℕ → Bool) → Bool
unfolding all_below
table p = all_below 10 (λ n. all_below 8 (p n))

bit-all_but : (n k : ℕ) → n < 10 → k < 8 → bit k (all_but n) ≡ (if n == k then 0 else 1)
unfolding table
bit-all_but n k hn hk = (==_iff _ _).0 (
    all_below_sound 8 (λ k. bit k (all_but n) == (if n == k then 0 else 1)) k
      (all_below_sound 10 (λ n. all_below 8 (λ k. bit k (all_but n) == (if n == k then 0 else 1))) n
        refl hn)
      hk)

-- `mask & ~(1<<n)`: line `n` is unmasked, the others stay.
bit-unmask :
    (m n k : ℕ)
    → n < 10
    → k < 8
    → bit k (u8 (bit_and m (all_but n))) ≡ (if n == k then 0 else bit k m)
bit-unmask m n k hn hk = ground (
  arith,
  bit-u8 k (bit_and m (all_but n)) hk,
  bit-bit_and k m (all_but n),
  bit-all_but n k hn hk,
  bit-lt-two k m,
)

-- `mask | ~(1<<n)`: line `n` stays, the others are masked.
bit-mask :
    (m n k : ℕ)
    → n < 10
    → k < 8
    → bit k (u8 (bit_or m (all_but n))) ≡ (if n == k then bit k m else 1)
bit-mask m n k hn hk = ground (
  arith,
  bit-u8 k (bit_or m (all_but n)) hk,
  bit-bit_or k m (all_but n),
  bit-all_but n k hn hk,
  bit-lt-two k m,
)

-- The port of a line's mask and the line's bit in it: each controller has eight lines.
abbrev pub line_port : ℕ → ℕ
line_port num = if ltb num 8 then 0x21 else 0xa1

abbrev pub line_bit : ℕ → ℕ
line_bit num = num % 8

-- What is written is one mask, in which one bit becomes `chosen` and the others become `others`, both of
-- what was read: right for the lines 0 to 6, the wrong controller for line 7, and the bit of another line
-- for the lines 8 to 15.
abbrev pub Masks : (inb : ℕ → ℕ) (num k : ℕ) → (chosen others : ℕ → ℕ → ℕ) → List Out → Type 0
Masks inb num k chosen others outs =
    ((num < 7)
      × (m : ℕ) × (outs ≡ out (line_port num) m ∷ [])
      × (bit k m ≡ (
          if line_bit num == k
          then chosen k (inb (line_port num))
          else others k (inb (line_port num)))))
    ⊎ (((num ≡ 7)
          × (m : ℕ) × (outs ≡ out (line_port 8) m ∷ [])
          × (bit k m
              ≡ (if 1 == k then chosen k (inb (line_port 8)) else others k (inb (line_port 8)))))
        ⊎ ((8 ≤ num)
            × (m : ℕ) × (outs ≡ out (line_port num) m ∷ [])
            × (bit (line_bit num) m ≡ others (line_bit num) (inb (line_port num)))
            × (bit k m ≡ (
                if line_bit num + 2 == k
                then chosen k (inb (line_port num))
                else others k (inb (line_port num))))))

module _ (inb : ℕ → ℕ) (num k : ℕ) (hn : num < 16) (hk : k < 8) where
  -- Enabling a line from 0 to 6 clears its bit of the mask and keeps the others; for line 7 it clears
  -- the bit of line 9, and for a line from 8 to 15 it keeps the line's bit and clears the one two above.
  pub enable_irq_lem : Masks inb num k (λ k' m. 0) bit (enable_irq inb num)
  unfolding enable_irq
  enable_irq_lem = elim (Bool-cases (ltb num 7)) [
    | inl low ↦ inl (
      ground arith,
      u8 (bit_and (inb 0x21) (all_but num)),
      ground arith,
      ground (arith, bit-unmask (inb 0x21) num k (ground arith) hk),
    )
    | inr high ↦ elim (Bool-cases (num == 7)) [
      | inl seven ↦ inr (
          inl (
            ground arith,
            u8 (bit_and (inb 0xa1) (all_but 1)),
            ground arith,
            bit-unmask (inb 0xa1) 1 k (omega arith) hk,
          ))
      | inr more ↦ inr (
          inr (
            ground arith,
            u8 (bit_and (inb 0xa1) (all_but (num - 6))),
            ground arith,
            ground (arith, bit-unmask (inb 0xa1) (num - 6) (num % 8) (omega arith) (omega arith)),
            ground (arith, bit-unmask (inb 0xa1) (num - 6) k (omega arith) hk),
          ))
    ]
  ]

  -- Disabling a line from 0 to 6 masks every other line of its controller and leaves the line's own bit
  -- as it was; for line 7 it masks all lines of the second controller but line 9; for a line from 8 to 15
  -- it masks the line and all others of its controller, but not the line two above.
  pub disable_irq_lem : Masks inb num k bit (λ k' m. 1) (disable_irq inb num)
  unfolding disable_irq
  disable_irq_lem = elim (Bool-cases (ltb num 7)) [
    | inl low ↦ inl (
      ground arith,
      u8 (bit_or (inb 0x21) (all_but num)),
      ground arith,
      ground (arith, bit-mask (inb 0x21) num k (ground arith) hk),
    )
    | inr high ↦ elim (Bool-cases (num == 7)) [
      | inl seven ↦ inr (
          inl (
            ground arith,
            u8 (bit_or (inb 0xa1) (all_but 1)),
            ground arith,
            bit-mask (inb 0xa1) 1 k (omega arith) hk,
          ))
      | inr more ↦ inr (
          inr (
            ground arith,
            u8 (bit_or (inb 0xa1) (all_but (num - 6))),
            ground arith,
            ground (arith, bit-mask (inb 0xa1) (num - 6) (num % 8) (omega arith) (omega arith)),
            ground (arith, bit-mask (inb 0xa1) (num - 6) k (omega arith) hk),
          ))
    ]
  ]
