-- ===== src/Memman/Space/Pages.antt =====
-- The page table of an address space of up to 1023 pages.
use mathlib.Core.Path.{subst}
use eaburns_sos.Prelude.{
  ℕ, zero, suc, ◌+◌, ◌*◌, ◌<◌, ◌≤◌, ◌≡◌, ◌≢◌, ◌⊎◌, ◌∙◌, sym, ap, arith, u32, inl, inr, some,
  Nat-cases,
}
use eaburns_sos.Memman.{Memory, frame_len, memman_use_frame}
use eaburns_sos.Memman.Paging.{pt_entries, frame_to_pte_user}
use eaburns_sos.Memman.Paging.Map.{word_at, store_ne}
use eaburns_sos.Memman.Space.{limit, Build, map_frames}
use eaburns_sos.Memman.Space.Laws.{IsUp, one_frame}
use eaburns_sos.Memman.Space.Balance.{count_of, map_frames_inv, map_frames_end, map_frames_lists}

-- A frame in use keeps its count.
pub map_frames_counts :
    (k j l pt : ℕ) (b b' : Build) (g : ℕ)
    → IsUp b.memory
    → l ≤ k
    → count_of b.memory g ≢ 0
    → map_frames k j l pt b ≡ some (0, b')
    → count_of b'.memory g ≡ count_of b.memory g
unfolding memman_use_frame
map_frames_counts k j zero pt b b' g up le used e =
    ap (λ x. count_of x.memory g) (sym (map_frames_end k j pt b b' e))
map_frames_counts zero j (suc l) pt b b' g up le used e = absurd (omega arith)
map_frames_counts (suc k) j (suc l) pt b b' g up le used e =
    let (f, in_map, free, rest) = map_frames_inv k j l pt b (0, b') up e in
    map_frames_counts k (j + 1) l pt (one_frame j pt f b) b' g up (omega arith) (ground arith) rest
    ∙ ground arith

-- The loop writes no word of a frame in use, but the entries of its table from `j` on.
pub map_frames_words :
    (k j l t : ℕ) (b b' : Build) (g i : ℕ)
    → IsUp b.memory
    → l ≤ k
    → j + l ≤ pt_entries
    → count_of b.memory g ≢ 0
    → i < pt_entries
    → (g ≢ t) ⊎ (i < j)
    → map_frames k j l (t * frame_len) b ≡ some (0, b')
    → b'.words (word_at g i) ≡ b.words (word_at g i)
unfolding memman_use_frame
map_frames_words k j zero t b b' g i up le room used hi off e =
    ap (λ x. x.words (word_at g i)) (sym (map_frames_end k j (t * frame_len) b b' e))
map_frames_words zero j (suc l) t b b' g i up le room used hi off e = absurd (omega arith)
map_frames_words (suc k) j (suc l) t b b' g i up le room used hi off e =
    let (f, in_map, free, rest) = map_frames_inv k j l (t * frame_len) b (0, b') up e in
    map_frames_words k (j + 1) l t (one_frame j (t * frame_len) f b) b' g i up (omega arith)
      (omega arith) (ground arith) hi (later off) rest
    ∙ store_ne t g j i b.words (frame_to_pte_user (u32 (f * frame_len + 1))) hi (omega arith) off
  where
    later : (g ≢ t) ⊎ (i < j) → (g ≢ t) ⊎ (i < j + 1)
    later (inl ne) = inl ne
    later (inr lt) = inr (omega arith)

-- Entry `i` of the table in frame `t` is that of a listed frame, which was free and is in use now.
abbrev pub IsPage : (m : Memory) → (b' : Build) → (t i : ℕ) → Type 0
IsPage m b' t i =
    (f : ℕ) × (b'.frames i ≡ f * frame_len + 1)
    × (b'.words (word_at t i) ≡ frame_to_pte_user (f * frame_len + 1))
    × (f < limit m)
    × (count_of m f ≡ 0)
    × (count_of b'.memory f ≡ 1)

pub map_frames_pages :
    (k j l t : ℕ) (b b' : Build) (i : ℕ)
    → IsUp b.memory
    → l ≤ k
    → j + l ≤ pt_entries
    → count_of b.memory t ≢ 0
    → j ≤ i
    → i < j + l
    → map_frames k j l (t * frame_len) b ≡ some (0, b')
    → IsPage b.memory b' t i
unfolding memman_use_frame
map_frames_pages k j zero t b b' i up le room used lo hi e = absurd (omega arith)
map_frames_pages zero j (suc l) t b b' i up le room used lo hi e = absurd (omega arith)
map_frames_pages (suc k) j (suc l) t b b' i up le room used lo hi e =
    let (f, in_map, free, rest) = map_frames_inv k j l (t * frame_len) b (0, b') up e in
    let b1 = one_frame j (t * frame_len) f b in
    let fits : u32 (f * frame_len + 1) ≡ f * frame_len + 1 = omega arith in
    elim (Nat-cases i j) [
      | inl here ↦
          let one : count_of b1.memory f ≡ 1 = ground arith in
          let word : b1.words (word_at t j) ≡ frame_to_pte_user (f * frame_len + 1) =
            rw fits (ground arith) in
          subst (IsPage b.memory b' t) (sym here) (
            f,
            map_frames_lists k j l (t * frame_len) f b b' up in_map (omega arith) rest,
            map_frames_words k (j + 1) l t b1 b' t j up (omega arith) (omega arith) (ground arith)
                  (omega arith) (inr (omega arith)) rest
                ∙ word,
            in_map,
            free,
            map_frames_counts k (j + 1) l (t * frame_len) b1 b' f up (omega arith) (omega arith)
                  rest
                ∙ one,
          )
      | inr on ↦
          let (f', listed, word, in_map', free', now) =
            map_frames_pages k (j + 1) l t b1 b' i up (omega arith) (omega arith) (ground arith)
              (omega arith) (omega arith) rest in
          (f', listed, word, in_map', ground arith, now)
    ]

-- Different entries have different frames.
pub map_frames_distinct :
    (k j l t : ℕ) (b b' : Build) (i i' : ℕ)
    → IsUp b.memory
    → l ≤ k
    → j + l ≤ pt_entries
    → count_of b.memory t ≢ 0
    → j ≤ i
    → i < i'
    → i' < j + l
    → map_frames k j l (t * frame_len) b ≡ some (0, b')
    → b'.frames i ≢ b'.frames i'
unfolding memman_use_frame
map_frames_distinct k j zero t b b' i i' up le room used lo lt hi e = absurd (omega arith)
map_frames_distinct zero j (suc l) t b b' i i' up le room used lo lt hi e = absurd (omega arith)
map_frames_distinct (suc k) j (suc l) t b b' i i' up le room used lo lt hi e =
    let (f, in_map, free, rest) = map_frames_inv k j l (t * frame_len) b (0, b') up e in
    let b1 = one_frame j (t * frame_len) f b in
    elim (Nat-cases i j) [
      | inl here ↦
          let (f', listed, word, in_map', free', now) =
            map_frames_pages k (j + 1) l t b1 b' i' up (omega arith) (omega arith) (ground arith)
              (omega arith) (omega arith) rest in
          let lists = map_frames_lists k j l (t * frame_len) f b b' up in_map (omega arith) rest in
          λ same.
            let f_is : f' ≡ f = omega (arith, lists, listed, same, ap b'.frames here) in
            let one : count_of b1.memory f ≡ 1 = ground arith in
            let zero_left : count_of b1.memory f ≡ 0 = rw f_is at free' in absurd (omega arith)
      | inr on ↦
          map_frames_distinct k (j + 1) l t b1 b' i i' up (omega arith) (omega arith) (ground arith)
            (omega arith) lt (omega arith) rest
    ]
