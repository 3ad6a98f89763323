-- ===== src/Text/Compare/Laws.antt =====
-- What the comparison of kernel/lib/kstring.c and the choice of a console mean.
use eaburns_sos.Prelude.{
  ℕ, ◌≤◌, ◌<◌, ◌≡◌, ◌≢◌, ◌↔◌, ◌⊎◌, inl, inr, ◌∙◌, refl, sym, ap, arith, List, [], ◌∷◌, ◌++◌, true,
  false, some, get_elem?, zero, suc, ltb, if◌then◌else◌, Bool-cases, Nat-cases,
}
use eaburns_sos.Text.Compare.{equal, char_ltb, first_char, next_char, kstrcmp, Console, choose}

-- a string of C: bytes, none of them 0
abbrev pub IsString : List ℕ → Type 0
IsString [] = Unit
IsString (x ∷ xs) = (1 ≤ x) × (x < 256) × IsString xs

-- The first character decides, unless it is the same.
kstrcmp_same : (x : ℕ) (a b : List ℕ) → kstrcmp (x ∷ a) (x ∷ b) ≡ kstrcmp a b
unfolding kstrcmp
kstrcmp_same x a b = let l : char_ltb x x ≡ false = ground arith in rw l refl

kstrcmp_apart :
    (x : ℕ) (a b : List ℕ)
    → x < 256
    → first_char b < 256
    → x ≢ first_char b
    → kstrcmp (x ∷ a) b ≢ equal
unfolding kstrcmp
kstrcmp_apart x a b hx hy ne e =
    let apart : (char_ltb x (first_char b) ≡ true)
        ⊎ ((char_ltb x (first_char b) ≡ false) × (char_ltb (first_char b) x ≡ true)) =
      ground arith in
    elim apart [
      | inl l ↦ absurd (ground (arith, rw l at e))
      | inr (l, g) ↦ absurd (ground (arith, rw (l, g) at e))
    ]

-- `kstrcmp a b` is 0 exactly where `a` is a prefix of `b`.
pub kstrcmp_lem :
    (a b : List ℕ)
    → IsString a
    → IsString b
    → (kstrcmp a b ≡ equal) ↔ ((rest : List ℕ) × (b ≡ a ++ rest))
unfolding kstrcmp
kstrcmp_lem [] b sa sb = ((λ e. (b, refl)), (λ p. refl))
kstrcmp_lem (x ∷ a) [] (lo, hi, sa) sb =
    let ne : x ≢ 0 = omega arith in
    (
      (λ e. absurd (kstrcmp_apart x a [] hi (omega arith) ne e)),
      (λ p. absurd (ne (sym (ap first_char p.1)))),
    )
kstrcmp_lem (x ∷ a) (y ∷ b) (lo, hi, sa) (lo', hi', sb) =
    let (there, back) = kstrcmp_lem a b sa sb in
    elim (Nat-cases x y) [
      | inl e ↦ rw e (
        (λ q.
            let (rest, same) = there (sym (kstrcmp_same y a b) ∙ q) in
            (rest, ap (λ t. y ∷ t) same)),
        (λ p. kstrcmp_same y a b ∙ back (p.0, ap next_char p.1)),
      )
      | inr ne ↦ (
        (λ q. absurd (kstrcmp_apart x a (y ∷ b) hi hi' ne q)),
        (λ p. absurd (ne (sym (ap first_char p.1)))),
      )
    ]

-- one entry of a table and those after it
module _ {Write : Type 0} (q : Console Write) (ps : List (Console Write)) (bound : ℕ) where
  in_rest :
      (next : ℕ) (i : ℕ) (p : Console Write)
      → q.priority ≤ next
      → next ≤ bound
      → ((j : ℕ) (r : Console Write) → get_elem? ps j ≡ some r → r.priority ≤ bound)
      → get_elem? (q ∷ ps) i ≡ some p
      → p.priority ≤ bound
  in_rest next zero p h start rest e =
      let same : q ≡ p = ground (arith, e) in
      let level : q.priority ≡ p.priority = ap (λ (r : Console Write). r.priority) same in
      omega (arith, level, h, start)
  in_rest next (suc i) p h start rest e = rest i p e

-- Of the console table, `init_console` takes one whose priority is the greatest.
pub choose_lem :
    {Write : Type 0}
    → (cur : Console Write) (ps : List (Console Write))
    → (cur.priority ≤ (choose cur ps).priority)
      × ((i : ℕ) (p : Console Write)
          → get_elem? ps i ≡ some p
          → p.priority ≤ (choose cur ps).priority)
unfolding choose
choose_lem cur [] = (omega arith, (λ i p e. absurd (ground (arith, e))))
choose_lem cur (q ∷ ps) =
    let next = if ltb cur.priority q.priority then q else cur in
    let (start, rest) = choose_lem next ps in
    let above : (cur.priority ≤ next.priority) × (q.priority ≤ next.priority) =
      elim (Bool-cases (ltb cur.priority q.priority)) [
        | inl t ↦ rw t (ground arith, ground arith)
        | inr f ↦ rw f (ground arith, ground arith)
      ] in
    (
      omega (arith, start, above.0),
      (λ i p e. in_rest q ps (choose next ps).priority next.priority i p above.1 start rest e),
    )
