-- ===== src/Text/Format/Laws.antt =====
-- What `kprintf` of kernel/lib/kstdio.c prints, and where it does not end.
use eaburns_sos.Prelude.{
  ℕ, zero, suc, ◌+◌, ◌≡◌, ◌≢◌, ◌∙◌, refl, sym, ap, arith, List, [], ◌∷◌, ◌++◌, Option, none, some,
  Option-cases, length, inl, inr, append_assoc, append-nil, ◌==◌, false,
}
use eaburns_sos.Text.Format.{
  Arguments, Turn, on, ended, overrun, convert, turn, kprintf_from, kprintf, backslash,
}

-- A format as its parts: a character that stands for itself, and a conversion.
pub data Item : Type 0 where
  literal : ℕ → Item
  conversion : ℕ → Item

abbrev pub render : List Item → List ℕ
render [] = []
render (literal c ∷ is) = c ∷ render is
render (conversion d ∷ is) = b'%' ∷ d ∷ render is

-- The literal characters are neither percent signs nor backslashes.
abbrev pub IsPlain : List Item → Type 0
IsPlain [] = Unit
IsPlain (literal c ∷ is) = (c ≢ b'%') × (c ≢ backslash) × IsPlain is
IsPlain (conversion d ∷ is) = IsPlain is

-- the text of a conversion and what follows it, for an unknown one and for a known one
abbrev pub with_text : Option (List ℕ) → (unknown known : List ℕ) → List ℕ
with_text none unknown known = unknown
with_text (some text) unknown known = text ++ known

module _ (args : Arguments) where
  -- what the conversions print, the arguments from the `n`-th on being theirs in turn; an unknown
  -- conversion prints nothing and takes no argument
  abbrev pub meaning : (n : ℕ) → List Item → List ℕ
  meaning n [] = []
  meaning n (literal c ∷ is) = c ∷ meaning n is
  meaning n (conversion d ∷ is) =
      with_text (convert args d (args.word n)) (meaning n is) (meaning (n + 1) is)

  turn-literal :
      (c : ℕ) (p : List ℕ) (n : ℕ) (out : List ℕ)
      → c ≢ b'%'
      → c ≢ backslash
      → turn args (c ∷ p) n out ≡ on p n (out ++ (c ∷ []))
  unfolding turn
  turn-literal c [] n out x y = let e : (c == b'%') ≡ false = ground arith in rw e refl
  turn-literal c (d ∷ p) n out x y =
      let e : (c == b'%') ≡ false = ground arith in
      let f : (c == backslash) ≡ false = ground arith in rw (e, f) refl

  turn-unknown :
      (d : ℕ) (p : List ℕ) (n : ℕ) (out : List ℕ)
      → convert args d (args.word n) ≡ none
      → turn args (b'%' ∷ d ∷ p) n out ≡ on p n out
  unfolding turn
  turn-unknown d p n out e = rw e refl

  turn-conversion :
      (d : ℕ) (p : List ℕ) (n : ℕ) (out text : List ℕ)
      → convert args d (args.word n) ≡ some text
      → turn args (b'%' ∷ d ∷ p) n out ≡ on p (n + 1) (out ++ text)
  unfolding turn
  turn-conversion d p n out text e = rw e refl

  turn-end : (n : ℕ) (out : List ℕ) → turn args [] n out ≡ ended out
  unfolding turn
  turn-end n out = refl

  -- one turn and the rest of the loop
  abbrev pub follow : ℕ → Turn → Option Turn
  follow k (on p n out) = kprintf_from args k p n out
  follow k (ended out) = some (ended out)
  follow k (overrun out) = some (overrun out)

  unroll :
      (k : ℕ) (p : List ℕ) (n : ℕ) (out : List ℕ) (t : Turn)
      → turn args p n out ≡ t
      → kprintf_from args (suc k) p n out ≡ follow k t
  unfolding kprintf_from
  unroll k p n out t e =
      elim t as (λ u. turn args p n out ≡ u → kprintf_from args (suc k) p n out ≡ follow k u) [
        | on p' n' out' ↦ (λ q.
            ap
              (λ u. elim u [
                | on x y z ↦ kprintf_from args k x y z
                | ended z ↦ some (ended z)
                | overrun z ↦ some (overrun z)
              ])
              q)
        | ended out' ↦ (λ q.
            ap
              (λ u. elim u [
                | on x y z ↦ kprintf_from args k x y z
                | ended z ↦ some (ended z)
                | overrun z ↦ some (overrun z)
              ])
              q)
        | overrun out' ↦ (λ q.
            ap
              (λ u. elim u [
                | on x y z ↦ kprintf_from args k x y z
                | ended z ↦ some (ended z)
                | overrun z ↦ some (overrun z)
              ])
              q)
      ]
        e

  from_lem :
      (is : List Item) (n : ℕ) (out : List ℕ)
      → IsPlain is
      → kprintf_from args (suc (length is)) (render is) n out ≡ some (ended (out ++ meaning n is))
  from_lem [] n out plain =
      unroll 0 [] n out _ (turn-end n out) ∙ ap (λ t. some (ended t)) (sym (append-nil out))
  from_lem (literal c ∷ is) n out (x, y, plain) =
      unroll (suc (length is)) (c ∷ render is) n out _ (turn-literal c (render is) n out x y)
      ∙ (from_lem is n (out ++ (c ∷ [])) plain
          ∙ ap (λ t. some (ended t)) (append_assoc out (c ∷ []) (meaning n is)))
  from_lem (conversion d ∷ is) n out plain = elim (Option-cases (convert args d (args.word n))) [
    | inl e ↦
        unroll (suc (length is)) (b'%' ∷ d ∷ render is) n out _ (turn-unknown d (render is) n out e)
        ∙ (from_lem is n out plain
            ∙ ap (λ t. some (ended (out ++ with_text t (meaning n is) (meaning (n + 1) is))))
                (sym e))
    | inr (text, e) ↦
        unroll (suc (length is)) (b'%' ∷ d ∷ render is) n out _
          (turn-conversion d (render is) n out text e)
        ∙ (from_lem is (n + 1) (out ++ text) plain
            ∙ (ap (λ t. some (ended t)) (append_assoc out text (meaning (n + 1) is))
                ∙ ap (λ t. some (ended (out ++ with_text t (meaning n is) (meaning (n + 1) is))))
                    (sym e)))
  ]

  -- On a format of plain characters and conversions, `kprintf` ends after one turn for each of
  -- them and one for the end, and has printed them in order, each conversion of the next argument.
  pub kprintf_lem :
      (is : List Item)
      → IsPlain is
      → kprintf args (suc (length is)) (render is) ≡ some (ended (meaning 0 is))
  unfolding kprintf
  kprintf_lem is plain = from_lem is 0 [] plain

  loops :
      (fuel : ℕ) (rest : List ℕ) (n : ℕ) (out : List ℕ)
      → kprintf_from args fuel (backslash ∷ b'%' ∷ rest) n out ≡ none
  unfolding kprintf_from turn
  loops zero rest n out = refl
  loops (suc fuel) rest n out = loops fuel rest n (out ++ (b'%' ∷ []))

  loops_after :
      (is : List Item) (fuel : ℕ) (rest : List ℕ) (n : ℕ) (out : List ℕ)
      → IsPlain is
      → kprintf_from args fuel (render is ++ (backslash ∷ b'%' ∷ rest)) n out ≡ none
  unfolding kprintf_from
  loops_after [] fuel rest n out plain = loops fuel rest n out
  loops_after (i ∷ is) zero rest n out plain = refl
  loops_after (literal c ∷ is) (suc fuel) rest n out (x, y, plain) =
      let p : List ℕ = render is ++ (backslash ∷ b'%' ∷ rest) in
      unroll fuel (c ∷ p) n out _ (turn-literal c p n out x y)
      ∙ loops_after is fuel rest n (out ++ (c ∷ [])) plain
  loops_after (conversion d ∷ is) (suc fuel) rest n out plain =
      let p : List ℕ = render is ++ (backslash ∷ b'%' ∷ rest) in
      elim (Option-cases (convert args d (args.word n))) [
        | inl e ↦
            unroll fuel (b'%' ∷ d ∷ p) n out _ (turn-unknown d p n out e)
            ∙ loops_after is fuel rest n out plain
        | inr (text, e) ↦
            unroll fuel (b'%' ∷ d ∷ p) n out _ (turn-conversion d p n out text e)
            ∙ loops_after is fuel rest (n + 1) (out ++ text) plain
      ]

  -- A format with an escaped percent sign after such a start never ends, whatever the number of
  -- turns.
  pub kprintf_escaped :
      (is : List Item) (rest : List ℕ) (fuel : ℕ)
      → IsPlain is
      → kprintf args fuel (render is ++ (backslash ∷ b'%' ∷ rest)) ≡ none
  unfolding kprintf
  kprintf_escaped is rest fuel plain = loops_after is fuel rest 0 [] plain
