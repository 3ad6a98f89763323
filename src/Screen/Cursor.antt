-- ===== src/Screen/Cursor.antt =====
-- The cursor: kernel/dev/bcon_cursor.c, and the cursor functions of kernel/arch/i386/dev/bcon.c.
pub mod Laws
use eaburns_sos.Prelude.{ℕ, ◌+◌, ◌-◌, ◌*◌, ◌/◌, ◌%◌, Bool, ◌||◌, leb, bit_or, u8, u32, sub32}
use eaburns_sos.Screen.Crtc.{Crtc}

-- TERM_COLS and TERM_LINES
abbrev pub term_cols : ℕ
term_cols = 80

abbrev pub term_lines : ℕ
term_lines = 25

module _ (crtc : Crtc) where
  open crtc use {State, reg, put}

  -- `_get_cur_offset`
  unfoldable pub get_cur_offset : State → ℕ
  get_cur_offset s = bit_or (u32 (reg s 14 * 256)) (reg s 15)

  -- The cursor registers are written in bytes.
  unfoldable pub put_offset : State → ℕ → State
  put_offset s offset = put (put s 15 (offset % 256)) 14 (u8 (offset / 256))

  unfoldable pub bcon_set_cursor_pos : State → (x y : ℕ) → State
  bcon_set_cursor_pos s x y = put_offset s (u32 (x + u32 (y * term_cols)))

  -- `bcon_get_cursor_pos`, which gives a column and a row
  unfoldable pub cursor_x : State → ℕ
  cursor_x s = get_cur_offset s % term_cols

  unfoldable pub cursor_y : State → ℕ
  cursor_y s = get_cur_offset s / term_cols

  unfoldable pub bcon_cursor_up : State → State
  bcon_cursor_up s = bcon_set_cursor_pos s (cursor_x s) (sub32 (cursor_y s) 1)

  unfoldable pub bcon_cursor_down : State → State
  bcon_cursor_down s = bcon_set_cursor_pos s (cursor_x s) (u32 (cursor_y s + 1))

  unfoldable pub bcon_cursor_left : State → State
  bcon_cursor_left s = bcon_set_cursor_pos s (sub32 (cursor_x s) 1) (cursor_y s)

  unfoldable pub bcon_cursor_right : State → State
  bcon_cursor_right s = bcon_set_cursor_pos s (u32 (cursor_x s + 1)) (cursor_y s)

  unfoldable pub bcon_cursor_home_line : State → State
  bcon_cursor_home_line s = bcon_set_cursor_pos s 0 (cursor_y s)

  unfoldable pub bcon_cursor_off_end : State → Bool
  bcon_cursor_off_end s = leb term_cols (cursor_x s) || leb term_lines (cursor_y s)
