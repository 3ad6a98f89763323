-- ===== src/Memman/Paging/Laws.antt =====
-- What the loops over one page table write.
use eaburns_sos.Prelude.{ℕ, zero, suc, ◌+◌, ◌*◌, ◌<◌, ◌≤◌, ◌≡◌, ◌∙◌, refl, ap, arith, u32}
use eaburns_sos.Memman.{frame_len}
use eaburns_sos.Memman.Paging.{fill_table, store, word_size, frame_to_pte_user}

-- A word below the table is not written.
pub fill_table-below :
    (n p addr : ℕ) (words : ℕ → ℕ) (x : ℕ) → x < p → fill_table n p addr words x ≡ words x
unfolding fill_table
fill_table-below zero p addr words x h = refl
fill_table-below (suc n) p addr words x h =
    fill_table-below n (p + word_size) (u32 (addr + frame_len))
      (store words p (frame_to_pte_user addr)) x (omega arith)
    ∙ ground arith

-- Entry `j` of the table is the entry of the frame `j` frames after the first one.
pub fill_table-entry :
    (n p addr : ℕ) (words : ℕ → ℕ) (j : ℕ)
    → addr + n * frame_len ≤ 0x100000000
    → j < n
    → fill_table n p addr words (p + j * word_size) ≡ frame_to_pte_user (addr + j * frame_len)
unfolding fill_table
fill_table-entry zero p addr words j fits h = omega arith
fill_table-entry (suc n) p addr words zero fits h =
    fill_table-below n (p + word_size) (u32 (addr + frame_len))
      (store words p (frame_to_pte_user addr)) (p + 0) (omega arith)
    ∙ ground arith
fill_table-entry (suc n) p addr words (suc j) fits h =
    let wrap : u32 (addr + frame_len) ≡ addr + frame_len = omega arith in
    let place : p + suc j * word_size ≡ (p + word_size) + j * word_size = omega arith in
    let frame : u32 (addr + frame_len) + j * frame_len ≡ addr + suc j * frame_len = omega arith in
    let rest = store words p (frame_to_pte_user addr) in
    ap (fill_table n (p + word_size) (u32 (addr + frame_len)) rest) place
    ∙ fill_table-entry n (p + word_size) (u32 (addr + frame_len)) rest j (omega arith) (omega arith)
    ∙ ap frame_to_pte_user frame

-- A word past the table is not written.
pub fill_table-above :
    (n p addr : ℕ) (words : ℕ → ℕ) (x : ℕ)
    → p + n * word_size ≤ x
    → fill_table n p addr words x ≡ words x
unfolding fill_table
fill_table-above zero p addr words x h = refl
fill_table-above (suc n) p addr words x h =
    fill_table-above n (p + word_size) (u32 (addr + frame_len))
      (store words p (frame_to_pte_user addr)) x (omega arith)
    ∙ ground arith
