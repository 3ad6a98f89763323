-- ===== src/Screen/Cursor/Laws.antt =====
-- Where the cursor functions of kernel/dev/bcon_cursor.c leave the cursor, as an offset from the
-- top left corner.
use native.Mathlib.Nat.{pow-suc}
use eaburns_sos.Prelude.{
  ℕ, zero, suc, ◌+◌, ◌*◌, ◌/◌, ◌%◌, ◌^◌, ◌≤◌, ◌<◌, ◌≡◌, ◌∙◌, refl, ap, arith, true, ◌↔◌, bit_or,
  u32, sub32,
}
use eaburns_sos.Prelude.Bits.{or_halves}
use eaburns_sos.Screen.Crtc.{Crtc}
use eaburns_sos.Screen.Cursor.{
  get_cur_offset, put_offset, bcon_set_cursor_pos, cursor_x, cursor_y, bcon_cursor_up,
  bcon_cursor_down, bcon_cursor_left, bcon_cursor_right, bcon_cursor_home_line, bcon_cursor_off_end,
}

bit_or-zero_fuel : (n a : ℕ) → a ≤ n → bit_or a 0 ≡ a
bit_or-zero_fuel zero zero h = refl
bit_or-zero_fuel zero (suc a) h = absurd (omega arith)
bit_or-zero_fuel (suc n) zero h = refl
bit_or-zero_fuel (suc n) (suc a) h =
    omega (arith, or_halves (suc a) 0, bit_or-zero_fuel n (suc a / 2) (omega arith))

-- A disjunction with a number below the lowest bit is a sum.
pub bit_or-shift : (k h l : ℕ) → l < 2 ^ k → bit_or (h * 2 ^ k) l ≡ h * 2 ^ k + l
bit_or-shift zero h l p =
    let z : l ≡ 0 = omega arith in
    rw z (bit_or-zero_fuel (h * 1) (h * 1) (omega arith) ∙ omega arith)
bit_or-shift (suc k) h l p =
    let twice : h * 2 ^ suc k ≡ 2 * (h * 2 ^ k) = ap (λ t. h * t) (pow-suc 2 k) ∙ omega arith in
    let half : 2 * (h * 2 ^ k) / 2 ≡ h * 2 ^ k = omega arith in
    let small : l / 2 < 2 ^ k = omega (arith, pow-suc 2 k) in
    rw twice
      (omega (arith, rw half at (or_halves (2 * (h * 2 ^ k)) l), bit_or-shift k h (l / 2) small))

module _ (crtc : Crtc) where
  open crtc use {State, reg, put, reg-lt, reg-put_self, reg-put_ne}

  offset_parts : (s : State) → get_cur_offset crtc s ≡ reg s 14 * 256 + reg s 15
  unfolding get_cur_offset
  offset_parts s =
      let h : u32 (reg s 14 * 256) ≡ reg s 14 * 256 = omega (arith, reg-lt s 14) in
      rw h (bit_or-shift 8 (reg s 14) (reg s 15) (reg-lt s 15))

  pub get_cur_offset-put_offset :
      (s : State) (n : ℕ) → get_cur_offset crtc (put_offset crtc s n) ≡ n % 65536
  unfolding put_offset
  get_cur_offset-put_offset s n =
      let s' : State = put s 15 (n % 256) in
      omega (
        arith,
        offset_parts (put s' 14 (n / 256 % 256)),
        reg-put_self s' 14 (n / 256 % 256) (omega arith),
        reg-put_ne s' 14 15 (n / 256 % 256) (omega arith),
        reg-put_self s 15 (n % 256) (omega arith),
      )

  pub get_cur_offset-lt : (s : State) → get_cur_offset crtc s < 65536
  get_cur_offset-lt s = omega (arith, offset_parts s, reg-lt s 14, reg-lt s 15)

  after_set :
      (s : State) (x y : ℕ)
      → get_cur_offset crtc (bcon_set_cursor_pos crtc s x y)
        ≡ (x + y * 80 % 4294967296) % 4294967296 % 65536
  unfolding bcon_set_cursor_pos
  after_set s x y = get_cur_offset-put_offset s (u32 (x + u32 (y * 80)))

  -- Setting a position of the first 65536 and reading it back gives that position.
  pub bcon_set_cursor_pos_lem :
      (s : State) (x y : ℕ)
      → x < 80
      → x + y * 80 < 65536
      → (cursor_x crtc (bcon_set_cursor_pos crtc s x y) ≡ x)
        × (cursor_y crtc (bcon_set_cursor_pos crtc s x y) ≡ y)
  unfolding cursor_x cursor_y
  bcon_set_cursor_pos_lem s x y hx h =
      let e = after_set s x y in (omega (arith, e), omega (arith, e))

  -- At the offset `p`, the cursor goes up and down by 80, left and right by 1, all modulo 65536, and
  -- home to the start of its line; it is off the end from 2000 on.
  pub cursor_moves :
      (s : State) (p : ℕ)
      → get_cur_offset crtc s ≡ p
      → (get_cur_offset crtc (bcon_cursor_up crtc s) ≡ (p + 65456) % 65536)
        × (get_cur_offset crtc (bcon_cursor_down crtc s) ≡ (p + 80) % 65536)
        × (get_cur_offset crtc (bcon_cursor_left crtc s) ≡ (p + 65535) % 65536)
        × (get_cur_offset crtc (bcon_cursor_right crtc s) ≡ (p + 1) % 65536)
        × (get_cur_offset crtc (bcon_cursor_home_line crtc s) ≡ p / 80 * 80)
        × ((bcon_cursor_off_end crtc s ≡ true) ↔ (2000 ≤ p))
  unfolding cursor_x cursor_y bcon_cursor_up bcon_cursor_down bcon_cursor_left bcon_cursor_right
      bcon_cursor_home_line bcon_cursor_off_end
  cursor_moves s p e =
      let small = get_cur_offset-lt s in
      let x : ℕ = get_cur_offset crtc s % 80 in
      let y : ℕ = get_cur_offset crtc s / 80 in
      (
        after_set s x (sub32 y 1) ∙ omega (arith, e, small),
        after_set s x (u32 (y + 1)) ∙ omega (arith, e, small),
        after_set s (sub32 x 1) y ∙ omega (arith, e, small),
        after_set s (u32 (x + 1)) y ∙ omega (arith, e, small),
        after_set s 0 y ∙ omega (arith, e, small),
        ground (arith, e, small),
      )
