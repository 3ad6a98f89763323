-- ===== src/Text/Compare.antt =====
-- `kstrcmp` of kernel/lib/kstring.c and `get_console` of kernel/console.c. A string is the list of
-- its bytes before the terminating 0.
pub mod Laws
use eaburns_sos.Prelude.{ℕ, ◌+◌, ◌%◌, List, [], ◌∷◌, Option, none, some, Bool, ltb, if◌then◌else◌}

-- -1, 1 and 0
pub data Comparison : Type 0 where
  less : Comparison
  greater : Comparison
  equal : Comparison

-- `<` on `char`, which is signed
abbrev pub char_ltb : ℕ → ℕ → Bool
char_ltb x y = ltb ((x + 128) % 256) ((y + 128) % 256)

-- what `*b` reads, and where `b` is after `b++`
abbrev pub first_char : List ℕ → ℕ
first_char [] = 0
first_char (x ∷ xs) = x

abbrev pub next_char : List ℕ → List ℕ
next_char [] = []
next_char (x ∷ xs) = xs

unfoldable pub kstrcmp : List ℕ → List ℕ → Comparison
kstrcmp [] b = equal
kstrcmp (x ∷ a) b =
    let rest = kstrcmp a (next_char b) in
    if char_ltb x (first_char b) then less else if char_ltb (first_char b) x then greater else rest

-- A console's name and priority, with what it writes with; the table ends at a null name.
pub record Console (Write : Type 0) : Type 0 where
  pub name : List ℕ
  pub write : Write
  pub priority : ℕ

unfoldable pub get_console :
    {Write : Type 0} → List (Console Write) → List ℕ → Option (Console Write)
get_console [] n = none
get_console (p ∷ ps) n =
    let rest = get_console ps n in
    elim (kstrcmp n p.name) [ equal ↦ some p | less ↦ rest | greater ↦ rest ]

-- The loop of `init_console`: the console of the greatest priority so far, past the table's rest.
unfoldable pub choose : {Write : Type 0} → Console Write → List (Console Write) → Console Write
choose cur [] = cur
choose cur (p ∷ ps) = choose (if ltb cur.priority p.priority then p else cur) ps
