-- ===== src/Memman/Paging.antt =====
-- The kernel's page tables: kernel/arch/i386/paging.c and kernel/include/paging.h.
pub mod Laws
pub mod Map
use eaburns_sos.Prelude.{
  ℕ, zero, suc, ◌+◌, ◌*◌, ◌/◌, Bool, true, false, Option, none, some, ◌==◌, ltb, if◌then◌else◌,
  bit_or, u32, ReturnCode, ret_failure, ret_success,
}
use eaburns_sos.Memman.{Memory, frame_len, memman_alloc_frame}

-- PT_ENTRIES, and sizeof(word_t)
abbrev pub pt_entries : ℕ
pt_entries = 1024

abbrev pub word_size : ℕ
word_size = 4

-- FRAME_KERN
abbrev pub frame_kern : ℕ
frame_kern = 1

-- f|PG_PRESENT|PG_USER|PG_READWRITE
unfoldable pub frame_to_pte_user : ℕ → ℕ
frame_to_pte_user f = bit_or (bit_or (bit_or f 1) 4) 2

unfoldable pub frame_to_pde_user : ℕ → ℕ
frame_to_pde_user f = bit_or (bit_or (bit_or f 1) 4) 2

unfoldable pub frame_to_pte_kernel : ℕ → ℕ
frame_to_pte_kernel f = bit_or (bit_or f 1) 2

unfoldable pub frame_to_pde_kernel : ℕ → ℕ
frame_to_pde_kernel f = bit_or (bit_or f 1) 2

-- The words of physical memory by address, `kern_page_dir`, and the registers: cr3 once it is
-- loaded, and the paging bit of cr0.
pub record Paging : Type 0 where
  pub words : ℕ → ℕ
  pub kern_page_dir : ℕ
  pub cr3 : Option ℕ
  pub paging : Bool

abbrev pub store : (ℕ → ℕ) → (address value : ℕ) → ℕ → ℕ
store words address value = λ x. if x == address then value else words x

-- The `bzero` of the words of one frame: `n` words from `p` on.
unfoldable pub clear_words : (n p : ℕ) → (ℕ → ℕ) → ℕ → ℕ
clear_words zero p words = words
clear_words (suc n) p words = clear_words n (p + word_size) (store words p 0)

-- The inner loop: `n` entries from the address `p` on, for the frames from `addr` on.
unfoldable pub fill_table : (n p addr : ℕ) → (ℕ → ℕ) → ℕ → ℕ
fill_table zero p addr words = words
fill_table (suc n) p addr words =
    fill_table n (p + word_size) (u32 (addr + frame_len)) (store words p (frame_to_pte_user addr))

-- The outer loop: `n` tables from the entry `i` of the directory on. The frames that were taken
-- before a failure stay taken.
unfoldable pub map_tables :
    (n i addr page_dir : ℕ) → (ℕ → ℕ) → Memory → ReturnCode × (ℕ → ℕ) × Memory
map_tables zero i addr page_dir words m = (ret_success, words, m)
map_tables (suc n) i addr page_dir words m =
    let (frame, m') = memman_alloc_frame m frame_kern in
    elim frame [
      | none ↦ (ret_failure, words, m')
      | some p ↦
          map_tables n (i + 1) (u32 (addr + pt_entries * frame_len)) page_dir
            (store (fill_table pt_entries p addr words) (page_dir + i * word_size)
              (frame_to_pde_user p))
            m'
    ]

-- What follows the outer loop: on success cr3 is loaded and paging is turned on.
unfoldable pub finish_paging :
    (pd_base : ℕ) → Paging → ReturnCode → (ℕ → ℕ) → Memory → ReturnCode × Paging × Memory
finish_paging pd_base s ret_failure words m =
    (ret_failure, record s { words = words; kern_page_dir = pd_base }, m)
finish_paging pd_base s ret_success words m = (
  ret_success,
  record { words = words; kern_page_dir = pd_base; cr3 = some pd_base; paging = true },
  m,
)

-- `pd_base` is PD_BASE, an address that the linker gives.
unfoldable pub init_paging : (pd_base : ℕ) → Paging → Memory → ReturnCode × Paging × Memory
init_paging pd_base s m =
    let cleared = clear_words (frame_len / word_size) pd_base s.words in
    let (code, words, m') = map_tables (m.frame_count / pt_entries) 0 0 pd_base cleared m in
    finish_paging pd_base s code words m'
