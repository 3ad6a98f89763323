-- ===== src/Efs/Block/Laws.antt =====
-- What the bitmap operations of efs/block.c do to the blocks.
use eaburns_sos.Prelude.{
  ℕ, zero, suc, ◌+◌, ◌-◌, ◌%◌, ◌^◌, ◌≤◌, ◌<◌, ◌≡◌, ◌≢◌, ◌⊎◌, ◌∙◌, inl, inr, refl, sym, arith, List,
  some, true, false, not, ◌==◌, get_or, length, u8, bit_and, bit_or, ltb, if◌then◌else◌, length-set,
  Bool-cases, Option-cases, Nat-cases, take-drop-set, get_or-set_self, get_or-set_ne,
}
use native.Mathlib.Nat.{pow-suc}
use eaburns_sos.Prelude.Bits.{
  bit, bit-lt-two, bit-bit_or, bit-u8, bit-pow_self, bit-pow_ne, bit_and-pow,
}
use eaburns_sos.Efs.Device.{Device, read_block, write_block}
use eaburns_sos.Efs.Device.Laws.{read-write_block_ne}
use eaburns_sos.Efs.Superblock.{Superblock, get_superblock, superblock_of}
use eaburns_sos.Efs.Block.{
  free, used, marked, block, byte_of, mask_of, is_taken, with_bit, check_block, mark_block_used,
  find_from, find_free_block,
}

pow-pos : (k : ℕ) → 1 ≤ 2 ^ k
pow-pos zero = omega arith
pow-pos (suc k) = omega (arith, pow-pos k, pow-suc 2 k)

bit-cases : (k x : ℕ) → (bit k x ≡ 0) ⊎ (bit k x ≡ 1)
bit-cases k x = omega (arith, bit-lt-two k x)

taken_bit : (k x : ℕ) → not (bit_and x (2 ^ k) == 0) ≡ (bit k x == 1)
taken_bit k x = elim (bit-cases k x) [
  | inl z ↦ let e : bit_and x (2 ^ k) ≡ 0 = rw (bit_and-pow k x, z) (omega arith) in rw (e, z) refl
  | inr o ↦
      let e : bit_and x (2 ^ k) ≡ 2 ^ k = rw (bit_and-pow k x, o) (omega arith) in
      rw (e, o) (ground (arith, pow-pos k))
]

with_bit_self : (k x : ℕ) → k < 8 → bit k (u8 (bit_or x (2 ^ k))) ≡ 1
with_bit_self k x h =
    omega
      (arith, bit-u8 k (bit_or x (2 ^ k)) h, bit-bit_or k x (2 ^ k), bit-pow_self k, bit-lt-two k x)

with_bit_ne : (j k x : ℕ) → k < 8 → j ≢ k → bit k (u8 (bit_or x (2 ^ j))) ≡ bit k x
with_bit_ne j k x h ne =
    omega (arith, bit-u8 k (bit_or x (2 ^ j)) h, bit-bit_or k x (2 ^ j), bit-pow_ne j k ne)

taken_self : (b : List ℕ) (n : ℕ) → byte_of n < length b → is_taken (with_bit b n) n ≡ true
taken_self b n h =
    let k : ℕ = 7 - n % 8 in
    let x : ℕ = get_or b (byte_of n) 0 in
    rw
      (
        get_or-set_self b (byte_of n) (u8 (bit_or x (2 ^ k))) 0 h,
        taken_bit k (u8 (bit_or x (2 ^ k))),
        with_bit_self k x (omega arith),
      )
      refl

taken_ne :
    (b : List ℕ) (n m : ℕ) → byte_of n < length b → m ≢ n → is_taken (with_bit b n) m ≡ is_taken b m
taken_ne b n m h ne = elim (Nat-cases (byte_of n) (byte_of m)) [
  | inr apart ↦ rw (get_or-set_ne b (u8 (bit_or (get_or b (byte_of n) 0) (mask_of n))) 0 apart) refl
  | inl same ↦
      let k : ℕ = 7 - m % 8 in
      let x : ℕ = get_or b (byte_of n) 0 in
      rw
        (
          sym same,
          get_or-set_self b (byte_of n) (u8 (bit_or x (mask_of n))) 0 h,
          taken_bit k (u8 (bit_or x (mask_of n))),
          taken_bit k x,
          with_bit_ne (7 - n % 8) k x (omega arith) (λ e. ne (omega (arith, same, e))),
        )
        refl
]

module _ (dev : Device) where
  open dev use {Image, pread-pwrite_self, length-pread}

  read_length : (d : Image) (b : List ℕ) → read_block dev d 0 ≡ some b → length b ≡ 1024
  unfolding read_block
  read_length d b r = length-pread d 0 b r

  -- what a check gives once block 0 has been read
  read_check :
      (d : Image) (b : List ℕ) (n : ℕ)
      → read_block dev d 0 ≡ some b
      → n < 3936
      → check_block dev d n ≡ (if is_taken b n then used else free)
  unfolding check_block read_block
  read_check d b n r h = let len : length b ≡ 1024 = read_length d b r in rw r (ground (arith, len))

  written :
      (d d' : Image) (b : List ℕ) (n : ℕ)
      → length b ≡ 1024
      → write_block dev d 0 (with_bit b n) ≡ some d'
      → read_block dev d' 0 ≡ some (with_bit b n)
  unfolding read_block write_block
  written d d' b n len w =
      pread-pwrite_self d d' 0 (with_bit b n)
        (length-set b (byte_of n) (u8 (bit_or (get_or b (byte_of n) 0) (mask_of n))) ∙ len) w

  mark_parts :
      (d d' : Image) (n : ℕ)
      → n < 3936
      → mark_block_used dev d n ≡ marked d'
      → (b : List ℕ) × (read_block dev d 0 ≡ some b)
        × (is_taken b n ≡ false)
        × (read_block dev d' 0 ≡ some (with_bit b n))
        × (write_block dev d 0 (with_bit b n) ≡ some d')
  unfolding mark_block_used read_block
  mark_parts d d' n h e = elim (Option-cases (read_block dev d 0)) [
    | inl r ↦ absurd (ground (arith, rw r at e))
    | inr (b, r) ↦
        let len : length b ≡ 1024 = read_length d b r in
        elim (Bool-cases (is_taken b n)) [
          | inl t ↦ absurd (ground (arith, rw r at e, t, len))
          | inr f ↦ elim (Option-cases (write_block dev d 0 (with_bit b n))) [
            | inl w ↦ absurd (ground (arith, rw r at e, f, len, w))
            | inr (d'', w) ↦
                let same : d'' ≡ d' = ground (arith, rw r at e, f, len, w) in
                (b, r, f, written d d' b n len (rw same at w), rw same at w)
          ]
        ]
  ]

  kept_superblock :
      (d d' : Image) (b : List ℕ) (n : ℕ)
      → read_block dev d 0 ≡ some b
      → read_block dev d' 0 ≡ some (with_bit b n)
      → get_superblock dev d' ≡ get_superblock dev d
  unfolding get_superblock superblock_of read_block
  kept_superblock d d' b n r r' =
      rw
        (
          r,
          r',
          take-drop-set 20 512 b (byte_of n) (u8 (bit_or (get_or b (byte_of n) 0) (mask_of n)))
              (omega arith),
        )
        refl

  -- Where `mark_block_used` succeeds on a block of the bitmap, the block was free and is used from
  -- then on, every other block of the bitmap is as it was, and so is the superblock.
  pub mark_block_used_lem :
      (d d' : Image) (n m : ℕ)
      → n < 3936
      → m < 3936
      → mark_block_used dev d n ≡ marked d'
      → (check_block dev d n ≡ free)
        × (check_block dev d' m ≡ (if m == n then used else check_block dev d m))
        × (get_superblock dev d' ≡ get_superblock dev d)
  mark_block_used_lem d d' n m h hm e =
      let (b, r, f, r', w) = mark_parts d d' n h e in
      let inside : byte_of n < length b = omega (arith, read_length d b r) in
      let now = read_check d' (with_bit b n) m r' hm in
      (
        read_check d b n r h ∙ rw f refl,
        elim (Nat-cases m n) [
          | inl same ↦
              let yes : (m == n) ≡ true = ground (arith, same) in
              now ∙ rw (yes, same, taken_self b n inside) refl
          | inr ne ↦
              let other : (m == n) ≡ false = ground (arith, ne) in
              now ∙ rw (other, taken_ne b n m inside ne) (sym (read_check d b m r hm))
        ],
        kept_superblock d d' b n r r',
      )

  -- The other blocks of the device stay.
  pub mark_block_used_read :
      (d d' : Image) (n k : ℕ)
      → n < 3936
      → 1 ≤ k
      → k < 2097152
      → mark_block_used dev d n ≡ marked d'
      → read_block dev d' k ≡ read_block dev d k
  mark_block_used_read d d' n k h lo hi e =
      let (b, r, f, r', w) = mark_parts d d' n h e in
      let len = length-set b (byte_of n) (u8 (bit_or (get_or b (byte_of n) 0) (mask_of n))) in
      read-write_block_ne dev d d' 0 k (with_bit b n) (omega arith) hi (omega arith)
        (len ∙ read_length d b r) w

  -- every block from `i` up to `n` is in use
  abbrev pub AllUsed : Image → (i n : ℕ) → Type 0
  AllUsed d i n = (j : ℕ) → i ≤ j → j < n → check_block dev d j ≡ used

  before : (d : Image) (n j : ℕ) → AllUsed d 0 n → (n ≤ j) ⊎ (check_block dev d j ≡ used)
  before d n j all = elim (Bool-cases (ltb j n)) [
    | inl t ↦ inr (all j (omega arith) (ground arith))
    | inr f ↦ inl (ground arith)
  ]

  one_more :
      (d : Image) (i n : ℕ) → check_block dev d i ≡ used → AllUsed d (i + 1) n → AllUsed d i n
  one_more d i n u rest j p q = elim (Nat-cases i j) [
    | inl e ↦ rw (sym e) u
    | inr ne ↦ rest j (omega (arith, ne)) q
  ]

  find_from_lem :
      (d : Image) (b : List ℕ)
      → read_block dev d 0 ≡ some b
      → (i k : ℕ) → i + k ≤ 3936
      → ((n : ℕ) × (find_from dev d i k ≡ block n)
          × (i ≤ n)
          × (n < i + k)
          × (check_block dev d n ≡ free)
          × AllUsed d i n)
        ⊎ ((find_from dev d i k ≡ block 0) × AllUsed d i (i + k))
  unfolding find_from check_block read_block
  find_from_lem d b r i zero h = inr (refl, (λ j p q. absurd (omega arith)))
  find_from_lem d b r i (suc k) h = elim (Bool-cases (is_taken b i)) [
    | inl t ↦
        let u : check_block dev d i ≡ used = read_check d b i r (omega arith) ∙ rw t refl in
        elim (find_from_lem d b r (i + 1) k (omega arith)) [
          | inl (n, e, p, q, f, all) ↦
              inl (n, rw u e, omega arith, omega arith, f, one_more d i n u all)
          | inr (e, all) ↦ inr (rw u e, one_more d i (i + suc k) u (λ j p q. all j p (omega arith)))
        ]
    | inr f ↦
        let e : check_block dev d i ≡ free = read_check d b i r (omega arith) ∙ rw f refl in
        inl (i, rw e refl, omega arith, omega arith, e, (λ j p q. absurd (omega arith)))
  ]

  -- On a file system whose superblock is read and whose bitmap fits in its block,
  -- `find_free_block` gives a data block that is free and has none free before it (`j` stands for
  -- any); or every data block is in use, and it gives 0, as it does where block 0 is free.
  pub find_free_block_lem :
      (d : Image) (sb : Superblock) (j : ℕ)
      → get_superblock dev d ≡ some sb
      → sb.data_count ≤ 3936
      → j < sb.data_count
      → ((n : ℕ) × (find_free_block dev d ≡ block n)
          × (n < sb.data_count)
          × (check_block dev d n ≡ free)
          × ((n ≤ j) ⊎ (check_block dev d j ≡ used)))
        ⊎ ((find_free_block dev d ≡ block 0) × (check_block dev d j ≡ used))
  unfolding find_free_block get_superblock read_block
  find_free_block_lem d sb j e h hj = elim (Option-cases (read_block dev d 0)) [
    | inl r ↦ absurd (ground (arith, rw r at e))
    | inr (b, r) ↦ elim (find_from_lem d b r 0 sb.data_count (omega arith)) [
      | inl (n, f, p, q, c, all) ↦ inl (n, rw e f, omega arith, c, before d n j all)
      | inr (f, all) ↦ inr (rw e f, all j (omega arith) (omega arith))
    ]
  ]
