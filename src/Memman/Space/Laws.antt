-- ===== src/Memman/Space/Laws.antt =====
-- What the loops of `alloc_addr_space` need, and what they leave alone.
use eaburns_sos.Prelude.{
  ℕ, zero, suc, ◌+◌, ◌-◌, ◌*◌, ◌<◌, ◌≤◌, ◌≡◌, ◌⊎◌, ◌∙◌, refl, ap, arith, min, u32, inl, inr, true,
  false, Bool-cases, ltb, ◌≢◌, none, some, ◌==◌,
}
use eaburns_sos.Memman.{Memory, frame_len, memman_use_frame}
use eaburns_sos.Memman.Laws.{free_from_lem, get_free_frame_eq, alloc_some}
use eaburns_sos.Memman.Paging.{pt_entries, word_size, store, frame_to_pte_user, frame_to_pde_user}
use eaburns_sos.Memman.Space.{
  limit, user_frame, Build, frame_user, map_frames, map_space, kern_pd_offset,
}
use eaburns_sos.Memman.Space.Count.{free_count, free_count-use_frame, free_count_full}

-- the manager runs, and its frames have addresses
abbrev pub IsUp : Memory → Type 0
IsUp m = (m.inited ≡ true) × (m.frame_count ≤ 1048576)

-- A frame is taken within the block of the map, or no frame there is free.
pub user_cases :
    (m : Memory)
    → IsUp m
    → ((f : ℕ) × (f < limit m)
        × ((m.frame_map f).count ≡ 0)
        × (user_frame m ≡ (some (f * frame_len), memman_use_frame m f frame_user)))
      ⊎ ((user_frame m ≡ (none, m)) × ((j : ℕ) → j < limit m → (m.frame_map j).count ≢ 0))
unfolding user_frame
user_cases m (up, small) = elim (free_from_lem m.frame_map m.frame_count 0) [
  | inr (e, all) ↦
      inr
        (rw (get_free_frame_eq m up ∙ e, user_frame) refl, λ j h. all j (omega arith) (omega arith))
  | inl (f, e, lo, hi, free, before) ↦ elim (Bool-cases (ltb f m.allocated)) [
    | inl inside ↦
        let fits : u32 (f * frame_len) ≡ f * frame_len = omega arith in
        inl (
          f,
          ground arith,
          free,
          rw (get_free_frame_eq m up ∙ e, user_frame) (rw inside (alloc_some m frame_user f up e))
              ∙ ap (λ a. (some a, memman_use_frame m f frame_user)) fits,
        )
    | inr out ↦ inr (
      rw (get_free_frame_eq m up ∙ e, user_frame) (rw out refl),
      λ j h. before j (omega arith) (ground arith),
    )
  ]
]

-- frame `f` has been given to entry `j` of the page table at `pt`
abbrev pub one_frame : (j pt f : ℕ) → Build → Build
one_frame j pt f b = record b {
  memory = memman_use_frame b.memory f frame_user;
  frames = store b.frames j (u32 (f * frame_len + 1));
  words = store b.words (pt + j * word_size) (frame_to_pte_user (u32 (f * frame_len + 1)));
}

pub map_frames_done : (k j pt : ℕ) (b : Build) → map_frames k j 0 pt b ≡ some (0, b)
unfolding map_frames
map_frames_done zero j pt b = refl
map_frames_done (suc k) j pt b = refl

pub map_frames-some :
    (k j l pt f : ℕ) (b : Build)
    → user_frame b.memory ≡ (some (f * frame_len), memman_use_frame b.memory f frame_user)
    → map_frames (suc k) j (suc l) pt b ≡ map_frames k (j + 1) l pt (one_frame j pt f b)
unfolding map_frames
map_frames-some k j l pt f b e =
    let more : (suc l == 0) ≡ false = ground arith in
    let pred : suc l - 1 ≡ l = omega arith in
    rw (more, map_frames) (rw (ap (λ a. a.0) e) (rw (ap (λ a. a.1) e) (rw pred refl)))

pub map_frames-none :
    (k j l pt : ℕ) (b : Build)
    → user_frame b.memory ≡ (none, b.memory)
    → map_frames (suc k) j (suc l) pt b ≡ none
unfolding map_frames
map_frames-none k j l pt b e =
    let more : (suc l == 0) ≡ false = ground arith in
    rw (more, map_frames) (rw (ap (λ a. a.0) e) refl)

-- table `i` at `f` and the directory's entry of it
abbrev pub with_table : (i f : ℕ) → Build → Build
with_table i f b = record b {
  memory = memman_use_frame b.memory f frame_user;
  pts = store b.pts i (f * frame_len);
}

abbrev pub with_entry : (i pd pt : ℕ) → Build → Build
with_entry i pd pt b = record b {
  words = store b.words (pd + (i + kern_pd_offset) * word_size) (frame_to_pde_user pt);
}

pub map_space-some :
    (k i left pd f l : ℕ) (b b' : Build)
    → user_frame b.memory ≡ (some (f * frame_len), memman_use_frame b.memory f frame_user)
    → map_frames pt_entries 0 left (f * frame_len) (with_table i f b) ≡ some (l, b')
    → map_space (suc k) i left pd b ≡ map_space k (i + 1) l pd (with_entry i pd (f * frame_len) b')
unfolding map_space
map_space-some k i left pd f l b b' e h =
    rw (ap (λ a. a.0) e, map_space) (rw (ap (λ a. a.1) e) (rw h refl))

pub map_space-none :
    (k i left pd : ℕ) (b : Build)
    → (user_frame b.memory ≡ (none, b.memory))
      ⊎ ((f : ℕ) × (user_frame b.memory
            ≡ (some (f * frame_len), memman_use_frame b.memory f frame_user))
          × (map_frames pt_entries 0 left (f * frame_len) (with_table i f b) ≡ none))
    → map_space (suc k) i left pd b ≡ none
unfolding map_space
map_space-none k i left pd b (inl e) = rw (ap (λ a. a.0) e, map_space) refl
map_space-none k i left pd b (inr (f, e, h)) =
    rw (ap (λ a. a.0) e, map_space) (rw (ap (λ a. a.1) e) (rw h refl))

-- The inner loop takes one frame for each entry that it fills, and stops where frames run out.
pub map_frames_outcome :
    (k j left pt : ℕ) (b : Build)
    → IsUp b.memory
    → ((b' : Build) × (map_frames k j left pt b ≡ some (left - min k left, b'))
        × (free_count b'.memory + min k left ≡ free_count b.memory)
        × IsUp b'.memory)
      ⊎ ((map_frames k j left pt b ≡ none) × (free_count b.memory < min k left))
unfolding map_frames memman_use_frame
map_frames_outcome zero j left pt b up =
    let same : left ≡ left - min 0 left = omega arith in
    inl (b, ap (λ x. some (x, b)) same, omega arith, up)
map_frames_outcome (suc k) j zero pt b up =
    let same : 0 ≡ 0 - min (suc k) 0 = omega arith in
    inl (b, map_frames_done (suc k) j pt b ∙ ap (λ x. some (x, b)) same, omega arith, up)
map_frames_outcome (suc k) j (suc l) pt b up = elim (user_cases b.memory up) [
  | inr (e, full) ↦ inr (map_frames-none k j l pt b e, omega (arith, free_count_full b.memory full))
  | inl (f, in_map, free, e) ↦
      let step = map_frames-some k j l pt f b e in
      let less = free_count-use_frame b.memory f frame_user free in_map in
      elim (map_frames_outcome k (j + 1) l pt (one_frame j pt f b) up) [
        | inl (b', eq, count, up') ↦
            let same : l - min k l ≡ suc l - min (suc k) (suc l) = omega arith in
            inl (b', step ∙ eq ∙ ap (λ x. some (x, b')) same, omega (arith, less), up')
        | inr (eq, short) ↦ inr (step ∙ eq, omega (arith, less))
      ]
]

-- The outer loop takes one frame for each table and one for each frame of the process.
pub map_space_outcome :
    (k i left pd : ℕ) (b : Build)
    → IsUp b.memory
    → left ≤ k * pt_entries
    → ((b' : Build) × (map_space k i left pd b ≡ some b')
        × (free_count b'.memory + (k + left) ≡ free_count b.memory)
        × IsUp b'.memory)
      ⊎ ((map_space k i left pd b ≡ none) × (free_count b.memory < k + left))
unfolding map_space memman_use_frame
map_space_outcome zero i left pd b up fits = inl (b, refl, omega arith, up)
map_space_outcome (suc k) i left pd b up fits = elim (user_cases b.memory up) [
  | inr (e, full) ↦
      inr (map_space-none k i left pd b (inl e), omega (arith, free_count_full b.memory full))
  | inl (f, in_map, free, e) ↦
      let less = free_count-use_frame b.memory f frame_user free in_map in
      elim (map_frames_outcome pt_entries 0 left (f * frame_len) (with_table i f b) up) [
        | inr (eq, short) ↦ inr (map_space-none k i left pd b (inr (f, e, eq)), omega (arith, less))
        | inl (b1, eq, count, up1) ↦
            let l = left - min pt_entries left in
            let step = map_space-some k i left pd f l b b1 e eq in
            elim (map_space_outcome k (i + 1) l pd (with_entry i pd (f * frame_len) b1) up1
              (omega arith)) [
                | inl (b', eq', count', up') ↦ inl (b', step ∙ eq', omega (arith, less), up')
                | inr (eq', short) ↦ inr (step ∙ eq', omega (arith, less))
              ]
      ]
]
