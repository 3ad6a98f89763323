-- ===== src/Text/Format.antt =====
-- `kprintf` of kernel/lib/kstdio.c, by the turns of its loop. What it prints is what `putchar` gets,
-- which passes it on where there is a console.
pub mod Laws
use eaburns_sos.Prelude.{
  ℕ, zero, suc, ◌+◌, ◌%◌, List, [], ◌∷◌, ◌++◌, ◌&&◌, Option, none, some, ◌==◌, if◌then◌else◌,
}
use eaburns_sos.Text.Number.{itoa, itoa_null, itoa_uppercase, itoa_lowercase}

-- The words on the stack after the format, and the string at an address.
pub record Arguments : Type 0 where
  pub word : ℕ → ℕ
  pub string_at : ℕ → List ℕ

abbrev pub backslash : ℕ
backslash = 92

-- After a turn: on with the loop, out of it, or past the end of the format.
pub data Turn : Type 0 where
  on : (p : List ℕ) (argument : ℕ) (printed : List ℕ) → Turn
  ended : List ℕ → Turn
  overrun : List ℕ → Turn

-- What a conversion prints, where there is such a one; each takes one argument.
unfoldable pub convert : Arguments → (letter word : ℕ) → Option (List ℕ)
convert args c w =
    if c == b'c'
    then some (w % 256 ∷ [])
    else if c == b's'
    then some (args.string_at w)
    else if c == b'd'
    then some (itoa w 10 itoa_null)
    else if c == b'x'
    then some (itoa w 16 itoa_lowercase)
    else if c == b'X'
    then some (itoa w 16 itoa_uppercase)
    else if c == b'o'
    then some (itoa w 8 itoa_null)
    else none

-- A turn where `n` arguments have been used and `out` has been printed. A backslash and a percent
-- sign print the sign and leave the format where it was.
unfoldable pub turn : Arguments → (p : List ℕ) (n : ℕ) (out : List ℕ) → Turn
turn args [] n out = ended out
turn args (c ∷ []) n out = if c == b'%' then overrun out else on [] n (out ++ (c ∷ []))
turn args (c ∷ d ∷ rest) n out =
    if c == b'%'
    then elim (convert args d (args.word n)) [
      | none ↦ on rest n out
      | some text ↦ on rest (n + 1) (out ++ text)
    ]
    else if (c == backslash) && (d == b'%')
    then on (c ∷ d ∷ rest) n (out ++ (b'%' ∷ []))
    else on (d ∷ rest) n (out ++ (c ∷ []))

-- The loop, for as many turns as there is fuel; `none` is a loop that goes on.
unfoldable pub kprintf_from :
    Arguments → (fuel : ℕ) → (p : List ℕ) (n : ℕ) (out : List ℕ) → Option Turn
kprintf_from args zero p n out = none
kprintf_from args (suc k) p n out = elim (turn args p n out) [
  | on p' n' out' ↦ kprintf_from args k p' n' out'
  | ended out' ↦ some (ended out')
  | overrun out' ↦ some (overrun out')
]

unfoldable pub kprintf : Arguments → (fuel : ℕ) → (format : List ℕ) → Option Turn
kprintf args fuel format = kprintf_from args fuel format 0 []
