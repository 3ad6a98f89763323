-- ===== src/Efs/Device.antt =====
-- What the tools ask of the operating system: each access opens the device, seeks, moves one block
-- of BLOCK_SIZE bytes and closes. `none` is any call of the access that fails.
pub mod Laws
use eaburns_sos.Prelude.{
  ℕ, ◌+◌, ◌*◌, ◌≤◌, ◌≡◌, ◌⊎◌, List, Option, some, none, length, ltb, u32, if◌then◌else◌,
}

pub record Device : Type 1 where
  pub Image : Type 0
  pub pread : Image → (offset : ℕ) → Option (List ℕ)
  pub pwrite : Image → (offset : ℕ) → List ℕ → Option Image
  -- A read gives as many bytes as were asked for.
  pub length-pread : (d : Image) (o : ℕ) (b : List ℕ) → pread d o ≡ some b → length b ≡ 1024
  -- What was written is read back.
  pub pread-pwrite_self :
      (d d' : Image) (o : ℕ) (b : List ℕ)
      → length b ≡ 1024
      → pwrite d o b ≡ some d'
      → pread d' o ≡ some b
  -- A write leaves the blocks that it does not touch.
  pub pread-pwrite_apart :
      (d d' : Image) (o p : ℕ) (b : List ℕ)
      → length b ≡ 1024
      → pwrite d o b ≡ some d'
      → (p + 1024 ≤ o) ⊎ (o + 1024 ≤ p)
      → pread d' p ≡ pread d p

-- BLOCK_SIZE
abbrev pub block_size : ℕ
block_size = 1024

module _ (dev : Device) where
  open dev use {Image, pread, pwrite}

  -- The offset is an `int`, so `lseek` refuses one whose top bit is set.
  abbrev pub offset_of : ℕ → Option ℕ
  offset_of n = if ltb (u32 (block_size * n)) 2147483648 then some (u32 (block_size * n)) else none

  unfoldable pub read_block : Image → ℕ → Option (List ℕ)
  read_block d n = elim (offset_of n) [ none ↦ none | some o ↦ pread d o ]

  unfoldable pub write_block : Image → ℕ → List ℕ → Option Image
  write_block d n b = elim (offset_of n) [ none ↦ none | some o ↦ pwrite d o b ]
