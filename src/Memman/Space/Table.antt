-- ===== src/Memman/Space/Table.antt =====
-- One page table and the directory that leads to it: what the loops of `alloc_addr_space` leave in
-- memory for up to 1023 pages.
use mathlib.Core.Path.{subst}
use eaburns_sos.Prelude.{
  ℕ, zero, suc, ◌+◌, ◌*◌, ◌-◌, ◌/◌, ◌<◌, ◌≤◌, ◌≡◌, ◌≢◌, ◌⊎◌, ◌∙◌, refl, sym, ap, arith, min, inl,
  inr, some, true, ltb, true, ltb, Nat-cases,
}
use eaburns_sos.Memman.{frame_len, memman_use_frame, memman_free_frame}
use eaburns_sos.Memman.Paging.{pt_entries, word_size, store, clear_words, frame_to_pde_user}
use eaburns_sos.Memman.Paging.Map.{word_at, store_ne}
use eaburns_sos.Memman.Space.{
  limit, Machine, Build, kern_pd_offset, map_frames, map_space, share_kernel, free_frames,
  all_inside,
}
use eaburns_sos.Memman.Space.Laws.{
  user_cases, IsUp, with_table, with_entry, map_frames_outcome, map_space-some, map_space-none,
}
use eaburns_sos.Memman.Space.Outcome.{start}
use eaburns_sos.Memman.Space.Balance.{
  count_of, SameCounts, map_frames_pts, map_frames_allocated, all_inside_lem, free_frame-Same,
  free-use_frame, free_frames-map_frames,
}
use eaburns_sos.Memman.Space.Pages.{IsPage, map_frames_words, map_frames_pages, map_frames_distinct}

-- the loops over one page table, in frame `t`
abbrev pub OneTable : (n pd : ℕ) → (b x : Build) → Type 0
OneTable n pd b x =
    (t : ℕ) × (x1 : Build) × (t < limit b.memory)
    × (count_of b.memory t ≡ 0)
    × (map_frames pt_entries 0 n (t * frame_len) (with_table 0 t b) ≡ some (0, x1))
    × (x ≡ with_entry 0 pd (t * frame_len) x1)

pub one_table :
    (n pd : ℕ) (b x : Build)
    → IsUp b.memory
    → n ≤ 1023
    → map_space 1 0 n pd b ≡ some x
    → OneTable n pd b x
unfolding memman_use_frame map_space
one_table n pd b x up le e = elim (user_cases b.memory up) [
  | inr (out, full) ↦ absurd (cc (map_space-none 0 0 n pd b (inl out), e))
  | inl (t, in_map, free, taken) ↦
      elim (map_frames_outcome pt_entries 0 n (t * frame_len) (with_table 0 t b) up) [
        | inr (out, short) ↦ absurd (cc (map_space-none 0 0 n pd b (inr (t, taken, out)), e))
        | inl (x1, eq, count, up') ↦
            let all : n - min pt_entries n ≡ 0 = omega arith in
            let done =
              subst
                (λ r. map_frames pt_entries 0 n (t * frame_len) (with_table 0 t b) ≡ some (r, x1))
                all eq in
            let step = map_space-some 0 0 n pd t 0 b x1 taken done in
            (t, x1, in_map, free, done, cc (step, e))
      ]
]

-- Sharing the kernel's part of the directory writes that part of the directory only.
share_kernel_ne :
    (n i d kern : ℕ) (words : ℕ → ℕ) (g k : ℕ)
    → k < pt_entries
    → i + n ≤ pt_entries
    → (g ≢ d) ⊎ ((k < i) ⊎ (i + n ≤ k))
    → share_kernel n i (d * frame_len) kern words (word_at g k) ≡ words (word_at g k)
unfolding share_kernel
share_kernel_ne zero i d kern words g k hk room off = refl
share_kernel_ne (suc n) i d kern words g k hk room off =
    share_kernel_ne n (i + 1) d kern (store words (word_at d i) (words (kern + i * word_size))) g k
      hk (omega arith) (omega (arith, off))
    ∙ ground (arith, off)

share_kernel_at :
    (n i d kd : ℕ) (words : ℕ → ℕ) (k : ℕ)
    → kd ≢ d
    → i + n ≤ pt_entries
    → i ≤ k
    → k < i + n
    → share_kernel n i (d * frame_len) (kd * frame_len) words (word_at d k) ≡ words (word_at kd k)
unfolding share_kernel
share_kernel_at zero i d kd words k ne room lo hi = absurd (omega arith)
share_kernel_at (suc n) i d kd words k ne room lo hi =
    let words' = store words (word_at d i) (words (word_at kd i)) in
    elim (Nat-cases k i) [
      | inl here ↦
          share_kernel_ne n (i + 1) d (kd * frame_len) words' d k (omega arith) (omega arith)
            (inr (inl (omega arith)))
          ∙ ground arith
      | inr on ↦
          share_kernel_at n (i + 1) d kd words' k ne (omega arith) (omega arith) (omega arith)
          ∙ store_ne d kd i k words (words (word_at kd i)) (omega arith) (omega arith) (inl ne)
    ]

clear_words_ne :
    (n p : ℕ) (words : ℕ → ℕ) (x : ℕ)
    → (x < p) ⊎ (p + n * word_size ≤ x)
    → clear_words n p words x ≡ words x
unfolding clear_words
clear_words_ne zero p words x off = refl
clear_words_ne (suc n) p words x off =
    clear_words_ne n (p + word_size) (store words p 0) x (omega (arith, off)) ∙ ground (arith, off)

-- Clearing a directory writes no word of another frame.
cleared_ne :
    (d g k : ℕ) (words : ℕ → ℕ)
    → g ≢ d
    → k < pt_entries
    → clear_words 1024 (d * frame_len) words (word_at g k) ≡ words (word_at g k)
cleared_ne d g k words ne h = clear_words_ne 1024 (d * frame_len) words (word_at g k) (omega arith)

module _ (n : ℕ) (frames pts : ℕ → ℕ) (s : Machine) (d t : ℕ) (x1 : Build) (up : IsUp s.memory)
    (le : n ≤ 1023) (d_free : count_of s.memory d ≡ 0)
    (t_free : count_of (start frames pts d s).memory t ≡ 0)
    (e : map_frames pt_entries 0 n (t * frame_len) (with_table 0 t (start frames pts d s))
      ≡ some (0, x1)) where
  abbrev pub before : Build
  before = with_table 0 t (start frames pts d s)

  pub d_used : count_of before.memory d ≡ 1
  unfolding memman_use_frame
  d_used = ground arith

  pub t_used : count_of before.memory t ≡ 1
  unfolding memman_use_frame
  t_used = ground arith

  t-ne-d : t ≢ d
  unfolding memman_use_frame
  t-ne-d same = ground arith

  -- a frame that is free after the two tables were taken was free before
  pub was_free : (f : ℕ) → count_of before.memory f ≡ 0 → count_of s.memory f ≡ 0
  unfolding memman_use_frame
  was_free f free = ground arith

  still_used : (g : ℕ) → count_of s.memory g ≢ 0 → count_of before.memory g ≢ 0
  unfolding memman_use_frame
  still_used g used z = ground arith

  abbrev pub words_after : ℕ → ℕ
  words_after =
      share_kernel kern_pd_offset 0 (d * frame_len) s.kern_page_dir
        (with_entry 0 (d * frame_len) (t * frame_len) x1).words

  pub directory_entry : words_after (word_at d 256) ≡ frame_to_pde_user (t * frame_len)
  directory_entry =
      share_kernel_ne 256 0 d s.kern_page_dir
        (with_entry 0 (d * frame_len) (t * frame_len) x1).words d 256 (omega arith) (omega arith)
        (inr (inr (omega arith)))
      ∙ ground arith

  pub table_word : (i : ℕ) → i < pt_entries → words_after (word_at t i) ≡ x1.words (word_at t i)
  table_word i h =
      share_kernel_ne 256 0 d s.kern_page_dir
        (with_entry 0 (d * frame_len) (t * frame_len) x1).words t i h (omega arith) (inl t-ne-d)
      ∙ store_ne d t 256 i x1.words (frame_to_pde_user (t * frame_len)) h (omega arith) (inl t-ne-d)

  pub kernel_entry :
      (kd k : ℕ)
      → s.kern_page_dir ≡ kd * frame_len
      → count_of s.memory kd ≢ 0
      → k < 256
      → words_after (word_at d k) ≡ s.words (word_at kd k)
  unfolding memman_use_frame
  kernel_entry kd k at used h =
      let ne : kd ≢ d = λ same. used (ap (count_of s.memory) same ∙ d_free) in
      let started = start frames pts d s in
      let other : count_of started.memory kd ≡ count_of s.memory kd = ground arith in
      let off : kd ≢ t = λ same. used (sym other ∙ ap (count_of started.memory) same ∙ t_free) in
      let words = (with_entry 0 (d * frame_len) (t * frame_len) x1).words in
      ap (λ p. share_kernel 256 0 (d * frame_len) p words (word_at d k)) at
      ∙ share_kernel_at 256 0 d kd words k ne (omega arith) (omega arith) (omega arith)
      ∙ store_ne d kd 256 k x1.words (frame_to_pde_user (t * frame_len)) (omega arith) (omega arith)
          (inl ne)
      ∙ map_frames_words pt_entries 0 n t before x1 kd k up (omega arith) (omega arith)
          (still_used kd used) (omega arith) (inl off) e
      ∙ cleared_ne d kd k s.words ne (omega arith)

  pub page : (i : ℕ) → i < n → IsPage before.memory x1 t i
  unfolding memman_use_frame
  page i h =
      map_frames_pages pt_entries 0 n t before x1 i up (omega arith) (omega arith)
        (λ z. absurd (omega (arith, t_used))) (omega arith) (omega arith) e

  pub distinct_pages : (i i' : ℕ) → i < i' → i' < n → x1.frames i ≢ x1.frames i'
  unfolding memman_use_frame
  distinct_pages i i' lt h =
      map_frames_distinct pt_entries 0 n t before x1 i i' up (omega arith) (omega arith)
        (λ z. absurd (omega (arith, t_used))) (omega arith) lt (omega arith) e

  -- The array of the page tables has the table.
  pub listed_table : x1.pts 0 ≡ t * frame_len
  unfolding memman_use_frame
  listed_table =
      ap (λ q. q 0) (map_frames_pts pt_entries 0 n (t * frame_len) before x1 up (omega arith) e)

  -- All of these frames have entries within the block of the map.
  pub inside :
      t < limit s.memory
      → d < limit s.memory
      → (all_inside n 0 x1.frames x1.memory ≡ true)
        × (all_inside 1 0 x1.pts x1.memory ≡ true)
        × (ltb (d * frame_len / frame_len) x1.memory.allocated ≡ true)
  unfolding memman_use_frame
  inside t_in d_in =
      let same : x1.memory.allocated ≡ s.memory.allocated =
        map_frames_allocated pt_entries 0 n (t * frame_len) before x1 up (omega arith) e in
      (
        all_inside_lem n 0 x1.frames x1.memory (λ j lo hi.
            let (f, listed, word, in_map, free, now) = page j (omega arith) in
            omega (arith, same, listed)),
        all_inside_lem 1 0 x1.pts x1.memory (λ j lo hi.
            let at : j ≡ 0 = omega arith in omega (arith, same, listed_table, ap x1.pts at)),
        ground (arith, same),
      )

  -- Freeing the pages, the table and the directory leaves the counts of before.
  pub released : SameCounts s.memory (
      memman_free_frame
        (free_frames 1 0 x1.pts (free_frames n 0 x1.frames x1.memory))
        (d * frame_len / frame_len))
  unfolding free_frames memman_use_frame
  released g =
      let started = (start frames pts d s).memory in
      let rest = free_frames n 0 x1.frames x1.memory in
      let pages =
        free_frames-map_frames pt_entries 0 n (t * frame_len) before x1 up (omega arith) e in
      let dir : d * frame_len / frame_len ≡ d = omega arith in
      let table : x1.pts 0 / frame_len ≡ t = omega (arith, listed_table) in
      ap (λ y. count_of (memman_free_frame (memman_free_frame rest (x1.pts 0 / frame_len)) y) g) dir
      ∙ ap (λ y. count_of (memman_free_frame (memman_free_frame rest y) d) g) table
      ∙ free_frame-Same (memman_free_frame before.memory t) (memman_free_frame rest t) d
          (free_frame-Same before.memory rest t pages) g
      ∙ free_frame-Same started (memman_free_frame before.memory t) d
          (free-use_frame started t t_free) g
      ∙ free-use_frame s.memory d d_free g
