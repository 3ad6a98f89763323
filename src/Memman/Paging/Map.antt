-- ===== src/Memman/Paging/Map.antt =====
-- The page tables that `init_paging` makes, over the whole directory.
use mathlib.Core.Path.{subst, subst₂}
use eaburns_sos.Prelude.{
  ℕ, zero, suc, ◌+◌, ◌*◌, ◌/◌, ◌%◌, ◌<◌, ◌≤◌, ◌≡◌, ◌≢◌, ◌⊎◌, ◌∙◌, refl, sym, ap, arith, u32, inl,
  inr, true, ReturnCode, ret_failure, none, some, ◌==◌, ltb, Bool-cases, ret_success,
}
use eaburns_sos.Memman.{Memory, frame_len, memman_use_frame, memman_alloc_frame}
use eaburns_sos.Memman.Laws.{alloc_cases}
use eaburns_sos.Memman.Paging.{
  Paging, init_paging, finish_paging, clear_words, map_tables, fill_table, store, word_size,
  pt_entries, frame_kern, frame_to_pte_user, frame_to_pde_user,
}
use eaburns_sos.Memman.Paging.Laws.{fill_table-entry, fill_table-below, fill_table-above}

-- the address of word `k` of frame `g`
abbrev pub word_at : (g k : ℕ) → ℕ
word_at g k = g * frame_len + k * word_size

-- A frame in use stays in use, and the frame that was taken is in use.
use_frame_keeps :
    (m : Memory) (f g : ℕ)
    → (m.frame_map f).count ≡ 0
    → ((m.frame_map g).count ≢ 0) ⊎ (g ≡ f)
    → ((memman_use_frame m f frame_kern).frame_map g).count ≢ 0
unfolding memman_use_frame
use_frame_keeps m f g free (inl used) z = ground arith
use_frame_keeps m f g free (inr same) z = ground arith

-- Filling a table writes no word of another frame.
fill_table_ne :
    (f g k addr : ℕ) (words : ℕ → ℕ)
    → g ≢ f
    → k < pt_entries
    → fill_table pt_entries (f * frame_len) addr words (word_at g k) ≡ words (word_at g k)
fill_table_ne f g k addr words ne h = elim (Bool-cases (ltb g f)) [
  | inl lt ↦
      let lt' : g < f = ground arith in
      fill_table-below pt_entries (f * frame_len) addr words (word_at g k) (omega arith)
  | inr ge ↦
      let ge' : f < g = ground arith in
      fill_table-above pt_entries (f * frame_len) addr words (word_at g k) (omega arith)
]

-- The entry `i` of the directory is no other word.
pub store_ne :
    (d g i k : ℕ) (words : ℕ → ℕ) (value : ℕ)
    → k < pt_entries
    → i < pt_entries
    → (g ≢ d) ⊎ (k < i)
    → store words (word_at d i) value (word_at g k) ≡ words (word_at g k)
store_ne d g i k words value hk hi off = elim (Bool-cases (word_at g k == word_at d i)) [
  | inr differ ↦ rw differ
  | inl same ↦ elim off [ inl ne ↦ absurd (ne (ground arith)) | inr lt ↦ ground arith ]
]

map_tables-none :
    (n i addr dir : ℕ) (words : ℕ → ℕ) (m : Memory)
    → memman_alloc_frame m frame_kern ≡ (none, m)
    → map_tables (suc n) i addr dir words m ≡ (ret_failure, words, m)
unfolding map_tables
map_tables-none n i addr dir words m e = rw (e, map_tables) (ap (λ a. (ret_failure, words, a.1)) e)

-- the words after one table, in the frame `f`, has been made
abbrev one_table : (i addr d f : ℕ) → (ℕ → ℕ) → ℕ → ℕ
one_table i addr d f words =
    store (fill_table pt_entries (f * frame_len) addr words) (word_at d i)
      (frame_to_pde_user (f * frame_len))

map_tables-some :
    (n i addr d f : ℕ) (words : ℕ → ℕ) (m : Memory)
    → memman_alloc_frame m frame_kern ≡ (some (f * frame_len), memman_use_frame m f frame_kern)
    → map_tables (suc n) i addr (d * frame_len) words m
      ≡ map_tables n
          (i + 1)
          (u32 (addr + pt_entries * frame_len))
          (d * frame_len)
          (one_table i addr d f words)
          (memman_use_frame m f frame_kern)
unfolding map_tables
map_tables-some n i addr d f words m e =
    rw (e, map_tables)
      (ap
        (λ a.
          map_tables n (i + 1) (u32 (addr + pt_entries * frame_len)) (d * frame_len)
            (one_table i addr d f words) a.1)
        e)

-- The loop changes no word of a frame in use, but the entries of the directory from `i` on.
map_tables-keeps :
    (n i addr d : ℕ) (words : ℕ → ℕ) (m : Memory) (g k : ℕ)
    → m.inited ≡ true
    → m.frame_count ≤ 1048576
    → (m.frame_map g).count ≢ 0
    → i + n ≤ pt_entries
    → k < pt_entries
    → (g ≢ d) ⊎ (k < i)
    → (map_tables n i addr (d * frame_len) words m).1 (word_at g k) ≡ words (word_at g k)
unfolding map_tables memman_use_frame
map_tables-keeps zero i addr d words m g k up small used room h off = refl
map_tables-keeps (suc n) i addr d words m g k up small used room h off =
    elim (alloc_cases m frame_kern up small) [
      | inr (e, full) ↦
          ap (λ r. r.1 (word_at g k)) (map_tables-none n i addr (d * frame_len) words m e)
      | inl (f, in_map, free, e) ↦
          let other : g ≢ f = λ same. used (ap (λ x. (m.frame_map x).count) same ∙ free) in
          ap (λ r. r.1 (word_at g k)) (map_tables-some n i addr d f words m e)
          ∙ map_tables-keeps n (i + 1) (u32 (addr + pt_entries * frame_len)) d
              (one_table i addr d f words) (memman_use_frame m f frame_kern) g k up small
              (use_frame_keeps m f g free (inl used)) (omega arith) h (later off)
          ∙ store_ne d g i k (fill_table pt_entries (f * frame_len) addr words)
              (frame_to_pde_user (f * frame_len)) h (omega arith) off
          ∙ fill_table_ne f g k addr words other h
    ]
  where
    later : (g ≢ d) ⊎ (k < i) → (g ≢ d) ⊎ (k < i + 1)
    later (inl ne) = inl ne
    later (inr lt) = inr (omega arith)

-- Entry `i` of the directory in frame `d` leads to a table whose entry `k` is that of `address`.
abbrev pub Maps : (words : ℕ → ℕ) → (d i k address : ℕ) → Type 0
Maps words d i k address =
    (t : ℕ) × (words (word_at d i) ≡ frame_to_pde_user (t * frame_len))
    × (words (word_at t k) ≡ frame_to_pte_user address)

module _ (n i addr d : ℕ) (words : ℕ → ℕ) (m : Memory) (k : ℕ) (up : m.inited ≡ true)
    (small : m.frame_count ≤ 1048576) (used : (m.frame_map d).count ≢ 0)
    (room : i + suc n ≤ pt_entries) (fits : addr + pt_entries * frame_len ≤ 0x100000000)
    (hk : k < pt_entries) where
  -- The table that is made first keeps its words and its place in the directory.
  first_table :
      (f next : ℕ)
      → (m.frame_map f).count ≡ 0
      → Maps
          (map_tables n
            (i + 1)
            next
            (d * frame_len)
            (one_table i addr d f words)
            (memman_use_frame m f frame_kern)).1
          d
          i
          k
          (addr + k * frame_len)
  unfolding memman_use_frame
  first_table f next free =
      let other : f ≢ d = λ same. used (ap (λ x. (m.frame_map x).count) (sym same) ∙ free) in
      let table = one_table i addr d f words in
      (
        f,
        map_tables-keeps n (i + 1) next d table (memman_use_frame m f frame_kern) d i up small
              (use_frame_keeps m f d free (inl used)) (omega arith) (omega arith)
              (inr (omega arith))
            ∙ ground arith,
        map_tables-keeps n (i + 1) next d table (memman_use_frame m f frame_kern) f k up small
              (use_frame_keeps m f f free (inr refl)) (omega arith) hk (inl other)
            ∙ store_ne d f i k (fill_table pt_entries (f * frame_len) addr words)
                (frame_to_pde_user (f * frame_len)) hk (omega arith) (inl other)
            ∙ fill_table-entry pt_entries (f * frame_len) addr words k fits hk,
      )

-- Where the loop succeeds, entry `i + j` of the directory leads to a table whose entry `k` is that of
-- the frame `j * 1024 + k` frames after `addr`.
pub map_tables_lem :
    (n i addr d : ℕ) (words : ℕ → ℕ) (m : Memory) (j k : ℕ)
    → m.inited ≡ true
    → m.frame_count ≤ 1048576
    → (m.frame_map d).count ≢ 0
    → i + n ≤ pt_entries
    → addr + n * (pt_entries * frame_len) ≤ 0x100000000
    → j < n
    → k < pt_entries
    → (map_tables n i addr (d * frame_len) words m).0 ≡ ret_success
    → Maps
        (map_tables n i addr (d * frame_len) words m).1
        d
        (i + j)
        k
        (addr + (j * pt_entries + k) * frame_len)
unfolding memman_use_frame
map_tables_lem zero i addr d words m j k up small used room fits hj hk c = absurd (omega arith)
map_tables_lem (suc n) i addr d words m j k up small used room fits hj hk c =
    elim (alloc_cases m frame_kern up small) [
      | inr (e, full) ↦
          let stop = ap (λ r. r.0) (map_tables-none n i addr (d * frame_len) words m e) in
          absurd (cc (stop, c))
      | inl (f, in_map, free, e) ↦
          let step = map_tables-some n i addr d f words m e in
          subst (λ r. Maps r.1 d (i + j) k (addr + (j * pt_entries + k) * frame_len)) (sym step)
            (rest f free j hj (λ j' hj'.
              map_tables_lem n (i + 1) next d (one_table i addr d f words)
                (memman_use_frame m f frame_kern) j' k up small
                (use_frame_keeps m f d free (inl used)) (omega arith) (omega arith) hj' hk
                (sym (ap (λ r. r.0) step) ∙ c)))
    ]
  where
    next : ℕ
    next = u32 (addr + pt_entries * frame_len)

    made : ℕ → ℕ → ℕ
    made f =
        (map_tables n (i + 1) next (d * frame_len) (one_table i addr d f words)
          (memman_use_frame m f frame_kern)).1

    rest :
        (f : ℕ)
        → (m.frame_map f).count ≡ 0
        → (j : ℕ) → j < suc n
        → ((j' : ℕ)
            → j' < n
            → Maps (made f) d (i + 1 + j') k (next + (j' * pt_entries + k) * frame_len))
        → Maps (made f) d (i + j) k (addr + (j * pt_entries + k) * frame_len)
    rest f free zero hj later =
        let index : i ≡ i + 0 = omega arith in
        let place : addr + k * frame_len ≡ addr + (0 * pt_entries + k) * frame_len = omega arith in
        subst₂ (λ x a. Maps (made f) d x k a) index place
          (first_table n i addr d words m k up small used room (omega arith) hk f next free)
    rest f free (suc j) hj later =
        let index : i + 1 + j ≡ i + suc j = omega arith in
        let place : next + (j * pt_entries + k) * frame_len
            ≡ addr + (suc j * pt_entries + k) * frame_len =
          omega arith in
        subst₂ (λ x a. Maps (made f) d x k a) index place (later j (omega arith))

finish_paging-ok :
    (b : ℕ) (s : Paging) (code : ReturnCode) (words : ℕ → ℕ) (m : Memory)
    → (finish_paging b s code words m).0 ≡ ret_success
    → (code ≡ ret_success)
      × ((finish_paging b s code words m).1
          ≡ record { words = words; kern_page_dir = b; cr3 = some b; paging = true })
unfolding finish_paging
finish_paging-ok b s ret_failure words m c = absurd (cc c)
finish_paging-ok b s ret_success words m c = (refl, refl)

-- Where init_paging succeeds, with the directory in a frame in use, it turns paging on with that
-- directory, and every frame of physical memory that fills a table with its neighbours is mapped to
-- its own address for the user to read and write.
pub init_paging_lem :
    (d : ℕ) (s : Paging) (m : Memory) (g : ℕ)
    → m.inited ≡ true
    → m.frame_count ≤ 1048576
    → (m.frame_map d).count ≢ 0
    → g < m.frame_count / pt_entries * pt_entries
    → (init_paging (d * frame_len) s m).0 ≡ ret_success
    → let (code, s', m') = init_paging (d * frame_len) s m in
      (s'.cr3 ≡ some (d * frame_len))
      × (s'.paging ≡ true)
      × Maps s'.words d (g / pt_entries) (g % pt_entries) (g * frame_len)
unfolding init_paging
init_paging_lem d s m g up small used hg c =
    let cleared = clear_words (frame_len / word_size) (d * frame_len) s.words in
    let r = map_tables (m.frame_count / pt_entries) 0 0 (d * frame_len) cleared m in
    let (done, eq) = finish_paging-ok (d * frame_len) s r.0 r.1 r.2 c in
    let place : 0 + (g / pt_entries * pt_entries + g % pt_entries) * frame_len ≡ g * frame_len =
      omega arith in
    (
      ap (λ p. p.cr3) eq,
      ap (λ p. p.paging) eq,
      subst (λ p. Maps p.words d (g / pt_entries) (g % pt_entries) (g * frame_len)) (sym eq)
          (subst₂ (λ x a. Maps r.1 d x (g % pt_entries) a) (omega arith) place
            (map_tables_lem (m.frame_count / pt_entries) 0 0 d cleared m (g / pt_entries)
              (g % pt_entries) up small used (omega arith) (omega arith) (omega arith) (omega arith)
              done)),
    )
