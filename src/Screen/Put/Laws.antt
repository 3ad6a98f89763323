-- ===== src/Screen/Put/Laws.antt =====
-- What kernel/dev/bcon.c leaves on the screen.
use eaburns_sos.Prelude.{
  ℕ, zero, suc, ◌+◌, ◌-◌, ◌*◌, ◌/◌, ◌%◌, ◌≤◌, ◌<◌, ◌≡◌, ◌≢◌, ◌⊎◌, ◌∙◌, inl, inr, refl, ap, arith,
  true, false, ◌==◌, ◌&&◌, leb, ltb, if◌then◌else◌, u8, List, [], ◌∷◌, Bool-cases, Nat-cases,
}
use eaburns_sos.Screen.Crtc.{Crtc}
use eaburns_sos.Screen.Memory.{Memory, IsBytes, write_8, memcpy, memcpy_lem, write_8-IsBytes}
use eaburns_sos.Screen.Cursor.{
  get_cur_offset, bcon_set_cursor_pos, bcon_cursor_up, bcon_cursor_down, bcon_cursor_left,
  bcon_cursor_home_line, bcon_cursor_off_end,
}
use eaburns_sos.Screen.Cursor.Laws.{get_cur_offset-put_offset, cursor_moves}
use eaburns_sos.Screen.Put.{
  clear_cells, bcon_clear_line, Screen, clear_lines, bcon_clear_screen, bcon_scroll_screen_up,
  bcon_write_char, scroll_off_end, put_default, bcon_putchar, bcon_write,
}

-- the byte at an address of a cleared line
abbrev pub blank : (attrs x : ℕ) → ℕ
blank attrs x = if x % 2 == 0 then b' ' else u8 attrs

clear_cells_lem :
    (attrs y c k : ℕ) (m : Memory) (x : ℕ)
    → clear_cells attrs y c k m x
      ≡ (if leb (y * 160 + c * 2) x && ltb x (y * 160 + c * 2 + k * 2) then blank attrs x else m x)
unfolding clear_cells write_8
clear_cells_lem attrs y c zero m x = ground arith
clear_cells_lem attrs y c (suc k) m x =
    clear_cells_lem attrs y (c + 1) k
      (write_8 (write_8 m (y * 80 * 2 + c * 2) b' ') (y * 80 * 2 + c * 2 + 1) attrs) x
    ∙ ground arith

clear_lines_lem :
    (attrs i k : ℕ) (m : Memory) (x : ℕ)
    → clear_lines attrs i k m x
      ≡ (if leb (i * 160) x && ltb x ((i + k) * 160) then blank attrs x else m x)
unfolding clear_lines bcon_clear_line
clear_lines_lem attrs i zero m x = ground arith
clear_lines_lem attrs i (suc k) m x =
    clear_lines_lem attrs (i + 1) k (clear_cells attrs i 0 80 m) x
    ∙ ground (arith, clear_cells_lem attrs i 0 80 m x)

clear_cells-IsBytes :
    (attrs y c k : ℕ) (m : Memory) → IsBytes m → IsBytes (clear_cells attrs y c k m)
unfolding clear_cells
clear_cells-IsBytes attrs y c zero m b = b
clear_cells-IsBytes attrs y c (suc k) m b = clear_cells-IsBytes attrs y (c + 1) k _ (
    write_8-IsBytes (write_8 m (y * 80 * 2 + c * 2) b' ') (y * 80 * 2 + c * 2 + 1) attrs
      (write_8-IsBytes m (y * 80 * 2 + c * 2) b' ' b))

-- the value does not occur in the list
abbrev pub Absent : ℕ → List ℕ → Type 0
Absent v [] = Unit
Absent v (x ∷ xs) = (x ≢ v) × Absent v xs

module _ (crtc : Crtc) where
  -- the offset of the cursor of a screen
  abbrev pub at : Screen crtc → ℕ
  at s = get_cur_offset crtc s.cursor

  -- `bcon_clear_screen` leaves every cell of the screen a space with the current attributes, what is
  -- past the screen as it was, and the cursor in the top left corner.
  pub bcon_clear_screen_lem :
      (s : Screen crtc) (x : ℕ)
      → ((bcon_clear_screen crtc s).video x
          ≡ (if ltb x 4000 then blank s.bcon_attrs x else s.video x))
        × (at (bcon_clear_screen crtc s) ≡ 0)
  unfolding bcon_clear_screen bcon_set_cursor_pos
  bcon_clear_screen_lem s x = (
    clear_lines_lem s.bcon_attrs 0 25 s.video x ∙ ground arith,
    get_cur_offset-put_offset crtc s.cursor 0,
  )

  -- `bcon_scroll_screen_up` moves every line of the screen one up, the first one off it, leaves the
  -- last line blank, and puts the cursor at the start of the line above.
  pub bcon_scroll_screen_up_lem :
      (s : Screen crtc) (x : ℕ)
      → IsBytes s.video
      → x < 4000
      → ((bcon_scroll_screen_up crtc s).video x
          ≡ (if ltb x 3840 then s.video (x + 160) else blank s.bcon_attrs x))
        × (at (bcon_scroll_screen_up crtc s) ≡ (at s + 65456) % 65536 / 80 * 80)
  unfolding bcon_scroll_screen_up bcon_clear_line
  bcon_scroll_screen_up_lem s x b h =
      let m : Memory = clear_cells s.bcon_attrs 25 0 80 s.video in
      let m' : Memory = memcpy m 0 160 4000 in
      let q = bcon_cursor_up crtc s.cursor in
      (
        clear_cells_lem s.bcon_attrs 24 0 80 m' x
            ∙ ground (
              arith,
              memcpy_lem m 0 160 4000 x (inl (omega arith))
                  (clear_cells-IsBytes s.bcon_attrs 25 0 80 s.video b),
              clear_cells_lem s.bcon_attrs 25 0 80 s.video (x + 160),
            ),
        (cursor_moves crtc q (get_cur_offset crtc q) refl).4
            ∙ ap (λ n. n / 80 * 80) (cursor_moves crtc s.cursor (at s) refl).0,
      )

  scrolled : (s : Screen crtc) → at s < 2080 → at (scroll_off_end crtc s) < 2000
  unfolding scroll_off_end bcon_scroll_screen_up
  scrolled s h =
      let q = bcon_cursor_up crtc s.cursor in
      let (up, _, _, _, _, off) = cursor_moves crtc s.cursor (at s) refl in
      let (_, _, _, _, home, _) = cursor_moves crtc q (get_cur_offset crtc q) refl in
      elim (Bool-cases (bcon_cursor_off_end crtc s.cursor)) [
        | inl t ↦ rw t (omega (arith, up, home, off.0 t))
        | inr f ↦ rw f (ground (arith, off, f))
      ]

  -- the video memory once a character is drawn at an offset
  abbrev pub drawn : (c p : ℕ) → Screen crtc → Memory
  drawn c p s =
      λ x. if x == 2 * p then c % 256 else if x == 2 * p + 1 then u8 s.bcon_attrs else s.video x

  write_at : (c : ℕ) (s : Screen crtc) → at (bcon_write_char crtc c s) ≡ (at s + 1) % 65536
  unfolding bcon_write_char
  write_at c s = get_cur_offset-put_offset crtc s.cursor (at s + 1)

  write_video :
      (c : ℕ) (s : Screen crtc) (x : ℕ) → (bcon_write_char crtc c s).video x ≡ drawn c (at s) s x
  unfolding bcon_write_char write_8
  write_video c s x = ground arith

  write-IsBytes :
      (c : ℕ) (s : Screen crtc) → IsBytes s.video → IsBytes (bcon_write_char crtc c s).video
  write-IsBytes c s b x = ground (arith, write_video c s x, b x)

  default_inner :
      (c : ℕ) (s : Screen crtc)
      → at s < 1999
      → (at (put_default crtc c s) ≡ at s + 1)
        × ((x : ℕ) → (put_default crtc c s).video x ≡ drawn c (at s) s x)
  unfolding put_default scroll_off_end
  default_inner c s h =
      let w : Screen crtc = bcon_write_char crtc c s in
      let off = (cursor_moves crtc w.cursor (at w) refl).5 in
      let stay : bcon_cursor_off_end crtc w.cursor ≡ false = ground (arith, off, write_at c s) in
      rw stay (omega (arith, write_at c s), write_video c s)

  default_stays : (c : ℕ) (s : Screen crtc) → at s < 2000 → at (put_default crtc c s) < 2000
  unfolding put_default
  default_stays c s h = scrolled (bcon_write_char crtc c s) (omega (arith, write_at c s))

  newline_stays :
      (s : Screen crtc)
      → at s < 2000
      → get_cur_offset crtc (bcon_cursor_home_line crtc (bcon_cursor_down crtc s.cursor)) < 2080
  newline_stays s h =
      let q = bcon_cursor_down crtc s.cursor in
      let (_, down, _, _, _, _) = cursor_moves crtc s.cursor (at s) refl in
      let (_, _, _, _, home, _) = cursor_moves crtc q (get_cur_offset crtc q) refl in
      omega (arith, down, home)

  home_stays :
      (s : Screen crtc)
      → at s < 2000
      → get_cur_offset crtc (bcon_cursor_home_line crtc s.cursor) < 2000
  home_stays s h =
      let (_, _, _, _, home, _) = cursor_moves crtc s.cursor (at s) refl in omega (arith, home)

  -- A backspace that is not in the top left corner leaves the cursor on the cell before, and that
  -- cell blank.
  pub backspace_lem :
      (s : Screen crtc) (x : ℕ)
      → 1 ≤ at s
      → at s < 2000
      → (at (bcon_putchar crtc 8 s) ≡ at s - 1)
        × ((bcon_putchar crtc 8 s).video x ≡ drawn b' ' (at s - 1) s x)
  unfolding bcon_putchar
  backspace_lem s x lo hi =
      let left : Screen crtc = record {
        cursor = bcon_cursor_left crtc s.cursor;
        video = s.video;
        bcon_attrs = s.bcon_attrs;
      } in
      let (_, _, back, _, _, _) = cursor_moves crtc s.cursor (at s) refl in
      let e : at left ≡ at s - 1 = omega (arith, back) in
      let (p, v) = default_inner b' ' left (omega (arith, e)) in
      let w : Screen crtc = put_default crtc b' ' left in
      let (_, _, again, _, _, _) = cursor_moves crtc w.cursor (at w) refl in
      (omega (arith, again, p, e), v x ∙ rw e refl)

  putchar_default :
      (c : ℕ) (s : Screen crtc)
      → c ≢ b'\r'
      → c ≢ b'\n'
      → c ≢ b'\t'
      → c ≢ 8
      → bcon_putchar crtc c s ≡ put_default crtc c s
  unfolding bcon_putchar
  putchar_default c s cr nl tab bs =
      let r : (c == b'\r') ≡ false = ground arith in
      let n : (c == b'\n') ≡ false = ground arith in
      let t : (c == b'\t') ≡ false = ground arith in
      let b : (c == 8) ≡ false = ground arith in rw (r, n, t, b) refl

  -- Whatever character is put, a cursor that is on the screen stays on it; the one exception is a
  -- backspace in the top left corner.
  pub bcon_putchar_stays :
      (c : ℕ) (s : Screen crtc)
      → at s < 2000
      → (c ≢ 8) ⊎ (1 ≤ at s)
      → at (bcon_putchar crtc c s) < 2000
  unfolding bcon_putchar
  bcon_putchar_stays c s h ok = elim (Nat-cases c b'\r') [
    | inl e ↦ rw e (home_stays s h)
    | inr cr ↦ elim (Nat-cases c b'\n') [
      | inl e ↦ rw e (scrolled _ (newline_stays s h))
      | inr nl ↦ elim (Nat-cases c b'\t') [
        | inl e ↦ rw e (
            default_stays b' ' _
              (default_stays b' ' _ (default_stays b' ' _ (default_stays b' ' s h))))
        | inr tab ↦ elim (Nat-cases c 8) [
          | inl e ↦ rw e (omega (arith, e, ok, (backspace_lem s 0 (omega (arith, e, ok)) h).0))
          | inr bs ↦ rw (putchar_default c s cr nl tab bs) (default_stays c s h)
        ]
      ]
    ]
  ]

  default_last :
      (c : ℕ) (s : Screen crtc) (x : ℕ)
      → IsBytes s.video
      → at s ≡ 1999
      → x < 4000
      → (at (put_default crtc c s) ≡ 1920)
        × ((put_default crtc c s).video x
            ≡ (if ltb x 3840 then drawn c (at s) s (x + 160) else blank s.bcon_attrs x))
  unfolding put_default scroll_off_end bcon_write_char
  default_last c s x b h hx =
      let w : Screen crtc = bcon_write_char crtc c s in
      let off = (cursor_moves crtc w.cursor (at w) refl).5 in
      let leave : bcon_cursor_off_end crtc w.cursor ≡ true =
        off.1 (omega (arith, write_at c s, h)) in
      let (v, p) = bcon_scroll_screen_up_lem w x (write-IsBytes c s b) hx in
      rw leave (
        omega (arith, p, write_at c s, h),
        v ∙ ap (λ y. if ltb x 3840 then y else blank s.bcon_attrs x) (write_video c s (x + 160)),
      )

  -- A character that is not a control character is drawn where the cursor is, and the cursor goes
  -- one on. In the last cell the screen then scrolls up by a line, with the character, and the
  -- cursor is at the start of the last line.
  pub bcon_putchar_lem :
      (c : ℕ) (s : Screen crtc) (x : ℕ)
      → c ≢ b'\r'
      → c ≢ b'\n'
      → c ≢ b'\t'
      → c ≢ 8
      → IsBytes s.video
      → at s < 2000
      → x < 4000
      → (at (bcon_putchar crtc c s) ≡ (if ltb (at s) 1999 then at s + 1 else 1920))
        × ((bcon_putchar crtc c s).video x ≡ (
            if ltb (at s) 1999
            then drawn c (at s) s x
            else if ltb x 3840
            then drawn c (at s) s (x + 160)
            else blank s.bcon_attrs x))
  bcon_putchar_lem c s x cr nl tab bs b h hx =
      rw (putchar_default c s cr nl tab bs) (elim (Bool-cases (ltb (at s) 1999)) [
        | inl t ↦ let (p, v) = default_inner c s (ground arith) in rw t (p, v x)
        | inr f ↦ rw f (default_last c s x b (ground arith) hx)
      ])

  -- Text without backspaces leaves the cursor on the screen.
  pub bcon_write_stays :
      (buff : List ℕ) (s : Screen crtc)
      → at s < 2000
      → Absent 8 buff
      → at (bcon_write crtc buff s) < 2000
  unfolding bcon_write
  bcon_write_stays [] s h absent = h
  bcon_write_stays (c ∷ cs) s h absent =
      bcon_write_stays cs (bcon_putchar crtc c s) (bcon_putchar_stays c s h (inl absent.0)) absent.1
