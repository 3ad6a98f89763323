-- ===== src/Screen/Put.antt =====
-- What is written to the screen: kernel/dev/bcon.c, with the drawing functions of
-- kernel/arch/i386/dev/bcon.c. The video memory stands at the addresses from 0xB8000, here from 0.
pub mod Laws
use eaburns_sos.Prelude.{
  ℕ, zero, suc, ◌+◌, ◌-◌, ◌*◌, ◌/◌, ◌%◌, List, [], ◌∷◌, Bool, if◌then◌else◌, ◌==◌, u8, length,
}
use eaburns_sos.Screen.Crtc.{Crtc}
use eaburns_sos.Screen.Memory.{Memory, write_8, memcpy}
use eaburns_sos.Screen.Cursor.{
  term_cols, term_lines, get_cur_offset, put_offset, bcon_set_cursor_pos, bcon_cursor_up,
  bcon_cursor_down, bcon_cursor_left, bcon_cursor_home_line, bcon_cursor_off_end,
}

-- TERM_ATTR, the first value of `bcon_attrs`
abbrev pub term_attr : ℕ
term_attr = 0x1f

-- The loop of `bcon_clear_line` at the cell `c` of the line, with `k` cells left.
unfoldable pub clear_cells : (attrs y c k : ℕ) → Memory → Memory
clear_cells attrs y c zero m = m
clear_cells attrs y c (suc k) m =
    clear_cells attrs y (c + 1) k
      (write_8 (write_8 m (y * term_cols * 2 + c * 2) b' ') (y * term_cols * 2 + c * 2 + 1) attrs)

unfoldable pub bcon_clear_line : (attrs y : ℕ) → Memory → Memory
bcon_clear_line attrs y m = clear_cells attrs y 0 term_cols m

-- The loop of `bcon_clear_screen` at line `i`, with `k` lines left.
unfoldable pub clear_lines : (attrs i k : ℕ) → Memory → Memory
clear_lines attrs i zero m = m
clear_lines attrs i (suc k) m = clear_lines attrs (i + 1) k (bcon_clear_line attrs i m)

module _ (crtc : Crtc) where
  open crtc use {State}

  pub record Screen : Type 0 where
    pub cursor : State
    pub video : Memory
    pub bcon_attrs : ℕ

  unfoldable pub bcon_clear_screen : Screen → Screen
  bcon_clear_screen s = record {
    cursor = bcon_set_cursor_pos crtc s.cursor 0 0;
    video = clear_lines s.bcon_attrs 0 term_lines s.video;
    bcon_attrs = s.bcon_attrs;
  }

  unfoldable pub bcon_scroll_screen_up : Screen → Screen
  bcon_scroll_screen_up s = record {
    cursor = bcon_cursor_home_line crtc (bcon_cursor_up crtc s.cursor);
    video = bcon_clear_line s.bcon_attrs (term_lines - 1) (
        memcpy (bcon_clear_line s.bcon_attrs term_lines s.video) 0 (term_cols * 2)
          (term_cols * term_lines * 2));
    bcon_attrs = s.bcon_attrs;
  }

  unfoldable pub bcon_write_char : ℕ → Screen → Screen
  bcon_write_char c s =
      let offset = get_cur_offset crtc s.cursor in
      record {
        cursor = put_offset crtc s.cursor (offset + 1);
        video = write_8 (write_8 s.video (offset * 2) (c % 256)) (offset * 2 + 1) s.bcon_attrs;
        bcon_attrs = s.bcon_attrs;
      }

  unfoldable pub scroll_off_end : Screen → Screen
  scroll_off_end s = if bcon_cursor_off_end crtc s.cursor then bcon_scroll_screen_up s else s

  -- the default case of `bcon_putchar`
  unfoldable pub put_default : ℕ → Screen → Screen
  put_default c s = scroll_off_end (bcon_write_char c s)

  abbrev pub with_cursor : Screen → State → Screen
  with_cursor s q = record { cursor = q; video = s.video; bcon_attrs = s.bcon_attrs }

  -- The calls of itself are with a space, which is the default case.
  unfoldable pub bcon_putchar : ℕ → Screen → Screen
  bcon_putchar c s =
      if c == b'\r'
      then with_cursor s (bcon_cursor_home_line crtc s.cursor)
      else if c == b'\n'
      then scroll_off_end
          (with_cursor s (bcon_cursor_home_line crtc (bcon_cursor_down crtc s.cursor)))
      else if c == b'\t'
      then put_default b' ' (put_default b' ' (put_default b' ' (put_default b' ' s)))
      else if c == 8
      then (let drawn = put_default b' ' (with_cursor s (bcon_cursor_left crtc s.cursor)) in
          with_cursor drawn (bcon_cursor_left crtc drawn.cursor))
      else put_default c s

  -- the screen after `bcon_write`, which gives back the length of the buffer
  unfoldable pub bcon_write : List ℕ → Screen → Screen
  bcon_write [] s = s
  bcon_write (c ∷ cs) s = bcon_write cs (bcon_putchar c s)
