-- ===== src/Kbd/Keymap.antt =====
-- The key numbers of kernel/dev/include/bcon_kbd.h and the US keymap of kernel/dev/bcon_kbd.c:
-- the 128 scancodes, and the same with shift held.
use eaburns_sos.Prelude.{ℕ, List, [], ◌∷◌, ◌++◌, get_or, length, refl, ◌≡◌}

-- `NA_KEY(n)` is `128 + n`.
abbrev pub k_lshift : ℕ
k_lshift = 128

abbrev pub k_lmeta : ℕ
k_lmeta = 129

abbrev pub k_ctl : ℕ
k_ctl = 130

abbrev pub k_caps : ℕ
k_caps = 132

abbrev pub k_rshift : ℕ
k_rshift = 138

abbrev pub k_rmeta : ℕ
k_rmeta = 139

abbrev pub k_num : ℕ
k_num = 140

abbrev pub k_scroll : ℕ
k_scroll = 141

abbrev pub k_del : ℕ
k_del = 142

abbrev pub plain_keys : List ℕ
plain_keys =
    0 ∷ 27 ∷ 49 ∷ 50 ∷ 51 ∷ 52 ∷ 53 ∷ 54 ∷ 55 ∷ 56 ∷ 57 ∷ 48 ∷ 45 ∷ 61 ∷ 8 ∷ 9 ∷ 113 ∷ 119 ∷ 101
    ∷ 114 ∷ 116 ∷ 121 ∷ 117 ∷ 105 ∷ 111 ∷ 112 ∷ 91 ∷ 93 ∷ 13 ∷ k_ctl ∷ 97 ∷ 115 ∷ 100 ∷ 102 ∷ 103
    ∷ 104 ∷ 106 ∷ 107 ∷ 108 ∷ 59 ∷ 39 ∷ 96 ∷ k_lshift ∷ 92 ∷ 122 ∷ 120 ∷ 99 ∷ 118 ∷ 98 ∷ 110 ∷ 109
    ∷ 44 ∷ 46 ∷ 47 ∷ k_rshift ∷ 42 ∷ k_lmeta ∷ 32 ∷ k_caps ∷ 0 ∷ 0 ∷ 0 ∷ 0 ∷ 0 ∷ 0 ∷ 0 ∷ 0 ∷ 0 ∷ 0
    ∷ 0 ∷ 0 ∷ 0 ∷ 0 ∷ 0 ∷ 0 ∷ 0 ∷ 0 ∷ 0 ∷ 0 ∷ 0 ∷ 0 ∷ 0 ∷ 0 ∷ k_del ∷ 0 ∷ k_num ∷ k_scroll ∷ 0 ∷ 0
    ∷ 0 ∷ 0 ∷ 0 ∷ 0 ∷ 0 ∷ 0 ∷ 0 ∷ 0 ∷ 0 ∷ 0 ∷ 0 ∷ 0 ∷ 0 ∷ 0 ∷ 0 ∷ 0 ∷ 0 ∷ 0 ∷ 0 ∷ 0 ∷ 0 ∷ 0 ∷ 0 ∷ 0
    ∷ 0 ∷ 0 ∷ 0 ∷ 0 ∷ 0 ∷ 0 ∷ 0 ∷ 0 ∷ 0 ∷ 0 ∷ 0 ∷ 0 ∷ 0 ∷ 0 ∷ 0 ∷ []

abbrev pub shifted_keys : List ℕ
shifted_keys =
    0 ∷ 27 ∷ 33 ∷ 64 ∷ 35 ∷ 36 ∷ 37 ∷ 94 ∷ 38 ∷ 42 ∷ 40 ∷ 41 ∷ 95 ∷ 43 ∷ 8 ∷ 9 ∷ 81 ∷ 87 ∷ 69 ∷ 82
    ∷ 84 ∷ 89 ∷ 85 ∷ 73 ∷ 79 ∷ 80 ∷ 123 ∷ 125 ∷ 13 ∷ k_ctl ∷ 65 ∷ 83 ∷ 68 ∷ 70 ∷ 71 ∷ 72 ∷ 74 ∷ 75
    ∷ 76 ∷ 58 ∷ 34 ∷ 126 ∷ k_lshift ∷ 124 ∷ 90 ∷ 88 ∷ 67 ∷ 86 ∷ 66 ∷ 78 ∷ 77 ∷ 60 ∷ 62 ∷ 63
    ∷ k_rshift ∷ 42 ∷ k_lmeta ∷ 32 ∷ k_caps ∷ 0 ∷ 0 ∷ 0 ∷ 0 ∷ 0 ∷ 0 ∷ 0 ∷ 0 ∷ 0 ∷ 0 ∷ 0 ∷ 0 ∷ 0 ∷ 0
    ∷ 0 ∷ 0 ∷ 0 ∷ 0 ∷ 0 ∷ 0 ∷ 0 ∷ 0 ∷ 0 ∷ 0 ∷ k_del ∷ 0 ∷ k_num ∷ k_scroll ∷ 0 ∷ 0 ∷ 0 ∷ 0 ∷ 0 ∷ 0
    ∷ 0 ∷ 0 ∷ 0 ∷ 0 ∷ 0 ∷ 0 ∷ 0 ∷ 0 ∷ 0 ∷ 0 ∷ 0 ∷ 0 ∷ 0 ∷ 0 ∷ 0 ∷ 0 ∷ 0 ∷ 0 ∷ 0 ∷ 0 ∷ 0 ∷ 0 ∷ 0 ∷ 0
    ∷ 0 ∷ 0 ∷ 0 ∷ 0 ∷ 0 ∷ 0 ∷ 0 ∷ 0 ∷ 0 ∷ 0 ∷ 0 ∷ []

pub keymap : List ℕ
keymap = plain_keys ++ shifted_keys

-- `keymaps[keymap][i]`; the table has 256 entries, and the code reads no further for a scancode
-- below 128.
unfoldable pub key_at : ℕ → ℕ
unfolding keymap
key_at i = get_or keymap i 0

length-keymap : length keymap ≡ 256
unfolding keymap
length-keymap = refl
