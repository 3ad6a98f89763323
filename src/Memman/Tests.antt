-- ===== src/Memman/Tests.antt =====
-- The frames of a machine with 8 MB, and its page tables.
use eaburns_sos.Prelude.{
  ℕ, ◌*◌, ◌/◌, ◌%◌, ◌≤◌, ◌<◌, ◌≡◌, ◌≢◌, ◌⊎◌, refl, arith, Option, none, some, ◌==◌, ltb,
  if◌then◌else◌, true, false, ret_success,
}
use eaburns_sos.Memman.{
  Memory, Frame, frame_len, zero_frame, full_frame, memman_alloc_frame, init_memman,
}
use eaburns_sos.Memman.Paging.{Paging, init_paging, finish_paging, map_tables, pt_entries}
use eaburns_sos.Memman.Paging.Map.{Maps, init_paging_lem}
use eaburns_sos.Memman.Laws.{memman_alloc_frame_lem}
use eaburns_sos.Memman.Init.{init_memman_lem}

-- The first 3 of the 8 frames are taken.
abbrev three_taken : Memory
three_taken = record {
  frame_count = 8;
  frame_map = λ i. if ltb i 3 then full_frame else zero_frame;
  allocated = 8;
  inited = true;
}

alloc_example :
    let (address, m') = memman_alloc_frame three_taken 0 in
    ((f : ℕ) × (address ≡ some (f * frame_len))
      × (f < 8)
      × ((three_taken.frame_map f).count ≡ 0)
      × ((f ≤ 5) ⊎ ((three_taken.frame_map 5).count ≢ 0))
      × ((m'.frame_map 5).count ≡ (if 5 == f then 1 else (three_taken.frame_map 5).count)))
    ⊎ ((address ≡ none) × (m' ≡ three_taken) × ((three_taken.frame_map 5).count ≢ 0))
alloc_example = memman_alloc_frame_lem three_taken 0 5 refl (omega arith) (omega arith)

abbrev kalloc : ℕ → Option (ℕ → Frame)
kalloc bytes = some (λ i. full_frame)

init_example :
    let (code, m') = init_memman 8192 kalloc three_taken in
    (code ≡ ret_success)
    × (m'.allocated < m'.frame_count)
    × ((memman_alloc_frame m' 0).0 ≡ some 0x20000)
init_example =
    init_memman_lem 8192 0 kalloc three_taken (λ i. full_frame) (omega arith) (omega arith) refl

-- the same manager with a table's worth of frames
abbrev one_table_memory : Memory
one_table_memory = record three_taken { frame_count = 1024; allocated = 1024 }

abbrev blank : Paging
blank = record { words = λ a. 0xff; kern_page_dir = 0; cr3 = none; paging = false }

loop_ends : (init_paging (2 * frame_len) blank one_table_memory).0 ≡ ret_success
unfolding init_paging finish_paging map_tables memman_alloc_frame eaburns_sos.Memman.get_free_frame
loop_ends = refl

init_paging_example :
    let (code, s', m') = init_paging (2 * frame_len) blank one_table_memory in
    (s'.cr3 ≡ some (2 * frame_len))
    × (s'.paging ≡ true)
    × Maps s'.words 2 (700 / pt_entries) (700 % pt_entries) (700 * frame_len)
init_paging_example =
    init_paging_lem 2 blank one_table_memory 700 refl (omega arith) (omega arith) (omega arith)
      loop_ends
