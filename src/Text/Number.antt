-- ===== src/Text/Number.antt =====
-- `itoa` of kernel/lib/kstdio.c.
pub mod Laws
use eaburns_sos.Prelude.{
  ℕ, zero, suc, ◌+◌, ◌/◌, ◌%◌, List, [], ◌∷◌, ◌++◌, Bool, true, false, ◌&&◌, ltb, ◌==◌,
  if◌then◌else◌,
}

-- ITOA_NULL, ITOA_UPPERCASE and ITOA_LOWERCASE
pub data LetterCase : Type 0 where
  itoa_null : LetterCase
  itoa_uppercase : LetterCase
  itoa_lowercase : LetterCase

abbrev pub itoa_buff_len : ℕ
itoa_buff_len = 20

abbrev pub letter_offset : LetterCase → ℕ
letter_offset itoa_null = 0
letter_offset itoa_uppercase = 7
letter_offset itoa_lowercase = 39

-- the character of a digit
abbrev pub digit_char : LetterCase → ℕ → ℕ
digit_char flags d = if ltb b'9' (d + b'0') then d + b'0' + letter_offset flags else d + b'0'

-- The `do` loop, with room for `k` more characters in the buffer: whether the buffer overflowed, and
-- the characters that are put into it.
unfoldable pub itoa_digits : LetterCase → (base k i : ℕ) → Bool × List ℕ
itoa_digits flags base zero i = (true, [])
itoa_digits flags base (suc k) i =
    let rest = itoa_digits flags base k (i / base) in
    if i / base == 0
    then (false, digit_char flags (i % base) ∷ [])
    else (rest.0, digit_char flags (i % base) ∷ rest.1)

abbrev pub reverse_onto : List ℕ → List ℕ → List ℕ
reverse_onto [] ys = ys
reverse_onto (x ∷ xs) ys = reverse_onto xs (x ∷ ys)

-- " itoa buff overflow "
abbrev pub overflow_text : List ℕ
overflow_text =
    b' ' ∷ b'i' ∷ b't' ∷ b'o' ∷ b'a' ∷ b' ' ∷ b'b' ∷ b'u' ∷ b'f' ∷ b'f' ∷ b' ' ∷ b'o' ∷ b'v' ∷ b'e'
    ∷ b'r' ∷ b'f' ∷ b'l' ∷ b'o' ∷ b'w' ∷ b' ' ∷ []

-- what is printed; the text of the overflow comes before the digits
unfoldable pub itoa : (i base : ℕ) → LetterCase → List ℕ
itoa i base flags =
    let digits = itoa_digits flags base itoa_buff_len i in
    (if digits.0 then overflow_text else []) ++ reverse_onto digits.1 []
