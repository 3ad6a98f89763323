-- ===== src/Process/Copy.antt =====
-- The program that `create_process` copies.
use eaburns_sos.Prelude.{
  ℕ, zero, suc, ◌+◌, ◌-◌, ◌*◌, ◌<◌, ◌≤◌, ◌≡◌, ◌⊎◌, ◌∙◌, refl, ap, arith, inl, inr, true, ltb, leb,
  ◌&&◌, if◌then◌else◌, sub32, Nat-cases,
}
use eaburns_sos.Memman.{frame_len}
use eaburns_sos.Screen.Memory.{IsBytes, memcpy, memcpy_lem, copy_from-IsBytes}
use eaburns_sos.Process.{page_bytes, copy_pages}

page_bytes-le : (left : ℕ) → page_bytes left ≤ frame_len
page_bytes-le left = ground arith

-- `x` lies outside of the page at `page`
abbrev pub Off : (x page : ℕ) → Type 0
Off x page = (x < page) ⊎ (page + frame_len ≤ x)

-- The pages at `frames` and the text are apart from each other.
abbrev pub Apart : (n text : ℕ) → (ℕ → ℕ) → Type 0
Apart n text frames =
    ((j : ℕ) → j < n → (frames j + frame_len ≤ text) ⊎ (text + frame_len ≤ frames j))
    × ((j j' : ℕ)
        → j < j'
        → j' < n
        → (frames j + frame_len ≤ frames j') ⊎ (frames j' + frame_len ≤ frames j))

copied_page :
    (left text page x : ℕ) (bytes : ℕ → ℕ)
    → (page + frame_len ≤ text) ⊎ (text + frame_len ≤ page)
    → IsBytes bytes
    → memcpy bytes page text (page_bytes left) x ≡ (
        if leb page x && ltb x (page + page_bytes left) then bytes (text + (x - page)) else bytes x)
copied_page left text page x bytes apart b =
    memcpy_lem bytes page text (page_bytes left) x (omega (arith, apart, page_bytes-le left)) b

copied-Off :
    (left text page x : ℕ) (bytes : ℕ → ℕ)
    → (page + frame_len ≤ text) ⊎ (text + frame_len ≤ page)
    → IsBytes bytes
    → Off x page
    → memcpy bytes page text (page_bytes left) x ≡ bytes x
copied-Off left text page x bytes apart b off =
    let le = page_bytes-le left in
    copied_page left text page x bytes apart b ∙ ground (arith, off, le)

at_page :
    (left page c text : ℕ) (bytes : ℕ → ℕ)
    → c < page_bytes left
    → (if leb page (page + c) && ltb (page + c) (page + page_bytes left)
        then bytes (text + (page + c - page))
        else bytes (page + c))
      ≡ bytes (text + c)
at_page left page c text bytes h =
    let lo : leb page (page + c) ≡ true = ground arith in
    let hi : ltb (page + c) (page + page_bytes left) ≡ true = ground arith in
    let back : page + c - page ≡ c = omega arith in rw lo (rw hi (ap (λ x. bytes (text + x)) back))

module _ (total text : ℕ) (frames : ℕ → ℕ) (apart : Apart total text frames) where
  -- Bytes outside of the pages stay.
  copy_pages-Off :
      (n i left x : ℕ) (bytes : ℕ → ℕ)
      → i + n ≤ total
      → IsBytes bytes
      → ((j : ℕ) → i ≤ j → j < i + n → Off x (frames j))
      → copy_pages n i left text frames bytes x ≡ bytes x
  unfolding copy_pages
  copy_pages-Off zero i left x bytes room b off = refl
  copy_pages-Off (suc n) i left x bytes room b off =
      copy_pages-Off n (i + 1) (sub32 left frame_len) x
        (memcpy bytes (frames i) text (page_bytes left)) (omega arith)
        (copy_from-IsBytes (frames i) text (page_bytes left) 0 bytes b)
        (λ j lo hi. off j (omega arith) (omega arith))
      ∙ copied-Off left text (frames i) x bytes (apart.0 i (omega arith)) b
          (off i (omega arith) (omega arith))

  -- Page `j` has the first bytes of the text.
  pub copy_pages_lem :
      (n i left j c : ℕ) (bytes : ℕ → ℕ)
      → i + n ≤ total
      → i ≤ j
      → j < i + n
      → left < 4294967296
      → n < 1048576
      → IsBytes bytes
      → c < page_bytes (sub32 left ((j - i) * frame_len))
      → copy_pages n i left text frames bytes (frames j + c) ≡ bytes (text + c)
  unfolding copy_pages
  copy_pages_lem zero i left j c bytes room lo hi wide short b small = absurd (omega arith)
  copy_pages_lem (suc n) i left j c bytes room lo hi wide short b small =
      let once = memcpy bytes (frames i) text (page_bytes left) in
      let b' = copy_from-IsBytes (frames i) text (page_bytes left) 0 bytes b in
      elim (Nat-cases j i) [
        | inl here ↦
            let whole : sub32 left ((j - i) * frame_len) ≡ left = omega arith in
            let c_small : c < page_bytes left = rw whole at small in
            let c_page : c < frame_len = omega (arith, page_bytes-le left) in
            ap (λ f. copy_pages n (i + 1) (sub32 left frame_len) text frames once (f + c))
              (ap frames here)
            ∙ copy_pages-Off n (i + 1) (sub32 left frame_len) (frames i + c) once (omega arith) b'
                (λ l lo' hi'. omega (arith, apart.1 i l (omega arith) (omega arith)))
            ∙ copied_page left text (frames i) (frames i + c) bytes (apart.0 i (omega arith)) b
            ∙ at_page left (frames i) c text bytes c_small
        | inr on ↦
            let less : sub32 left ((j - i) * frame_len)
                ≡ sub32 (sub32 left frame_len) ((j - (i + 1)) * frame_len) =
              omega arith in
            copy_pages_lem n (i + 1) (sub32 left frame_len) j c once (omega arith) (omega arith)
              (omega arith) (omega arith) (omega arith) b' (rw less at small)
            ∙ copied-Off left text (frames i) (text + c) bytes (apart.0 i (omega arith)) b (
                omega (
                  arith,
                  apart.0 i (omega arith),
                  page_bytes-le (sub32 left ((j - i) * frame_len)),
                ))
      ]
