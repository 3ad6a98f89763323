-- ===== src/Screen/Crtc.antt =====
-- The registers of the video controller behind the ports 0x3D4 and 0x3D5, each a byte: a byte that
-- was written is read back, and the other registers stay.
use eaburns_sos.Prelude.{ℕ, ◌<◌, ◌≡◌, ◌≢◌}

pub record Crtc : Type 1 where
  pub State : Type 0
  pub reg : State → ℕ → ℕ
  pub put : State → ℕ → ℕ → State
  pub reg-lt : (s : State) (r : ℕ) → reg s r < 256
  pub reg-put_self : (s : State) (r v : ℕ) → v < 256 → reg (put s r v) r ≡ v
  pub reg-put_ne : (s : State) (r q v : ℕ) → q ≢ r → reg (put s r v) q ≡ reg s q
