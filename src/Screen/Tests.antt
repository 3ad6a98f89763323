-- ===== src/Screen/Tests.antt =====
-- The screen on a controller whose registers are a function, with the cursor in the last cell.
use eaburns_sos.Prelude.{
  ℕ, ◌+◌, ◌*◌, ◌/◌, ◌%◌, ◌<◌, ◌≡◌, ◌≢◌, inl, refl, arith, ◌==◌, if◌then◌else◌, ltb,
}
use eaburns_sos.Screen.Crtc.{Crtc}
use eaburns_sos.Screen.Cursor.{get_cur_offset}
use eaburns_sos.Screen.Put.{Screen, bcon_putchar, bcon_scroll_screen_up}
use eaburns_sos.Screen.Put.Laws.{
  at, drawn, bcon_putchar_lem, bcon_putchar_stays, bcon_scroll_screen_up_lem,
}

pub reg-put : (s : ℕ → ℕ) (r v : ℕ) → v < 256 → (if r == r then v else s r) % 256 ≡ v
reg-put s r v h = ground arith

pub reg-other : (s : ℕ → ℕ) (r q v : ℕ) → q ≢ r → (if q == r then v else s q) % 256 ≡ s q % 256
reg-other s r q v h = ground arith

pub reg-small : (s : ℕ → ℕ) (r : ℕ) → s r % 256 < 256
reg-small s r = omega arith

abbrev registers : Crtc
registers = record {
  State = ℕ → ℕ;
  reg = λ s r. s r % 256;
  put = λ s r v q. if q == r then v else s q;
  reg-lt = reg-small;
  reg-put_self = reg-put;
  reg-put_ne = reg-other;
}

-- The cursor is at the offset 1999 = 7 * 256 + 207, on a screen of dots.
abbrev last_cell : Screen registers
last_cell = record {
  cursor = λ r. if r == 14 then 7 else 207;
  video = λ x. b'.';
  bcon_attrs = 0x1f;
}

last_at : at registers last_cell ≡ 1999
unfolding get_cur_offset
last_at = refl

last_on : at registers last_cell < 2000
last_on = omega (arith, last_at)

putchar_example :
    (at registers (bcon_putchar registers b'A' last_cell)
      ≡ (if ltb (at registers last_cell) 1999 then at registers last_cell + 1 else 1920))
    × ((bcon_putchar registers b'A' last_cell).video 3838 ≡ (
        if ltb (at registers last_cell) 1999
        then drawn registers b'A' (at registers last_cell) last_cell 3838
        else drawn registers b'A' (at registers last_cell) last_cell 3998))
putchar_example =
    bcon_putchar_lem registers b'A' last_cell 3838 (λ e. absurd (omega (arith, e)))
      (λ e. absurd (omega (arith, e))) (λ e. absurd (omega (arith, e)))
      (λ e. absurd (omega (arith, e))) (λ x. omega arith) last_on (omega arith)

stays_example : at registers (bcon_putchar registers 10 last_cell) < 2000
stays_example =
    bcon_putchar_stays registers 10 last_cell last_on (inl (λ e. absurd (omega (arith, e))))

scroll_example :
    ((bcon_scroll_screen_up registers last_cell).video 100 ≡ 46)
    × (at registers (bcon_scroll_screen_up registers last_cell)
        ≡ (at registers last_cell + 65456) % 65536 / 80 * 80)
scroll_example = bcon_scroll_screen_up_lem registers last_cell 100 (λ x. omega arith) (omega arith)
