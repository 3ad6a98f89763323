-- ===== src/Prelude/Words.antt =====
-- Machine words as native numbers, and the return values of kernel/include/retval.h.
use Prim.Native.Nat.{ℕ, ◌+◌, ◌-◌, ◌%◌}

-- A failure is -1 in the source and a success is 1.
pub data ReturnCode : Type 0 where
  ret_failure : ReturnCode
  ret_success : ReturnCode

abbrev pub u8 : ℕ → ℕ
u8 x = x % 256

abbrev pub u16 : ℕ → ℕ
u16 x = x % 65536

abbrev pub u32 : ℕ → ℕ
u32 x = x % 4294967296

-- `a - b` on uint32, with its wrap
abbrev pub sub32 : ℕ → ℕ → ℕ
sub32 a b = (a + 4294967296 - b % 4294967296) % 4294967296

-- `-n` as a uint32
abbrev pub neg32 : ℕ → ℕ
neg32 n = (4294967296 - n % 4294967296) % 4294967296
