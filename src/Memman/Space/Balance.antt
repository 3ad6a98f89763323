-- ===== src/Memman/Space/Balance.antt =====
-- What `free_addr_space` gives back: every frame that `alloc_addr_space` took.
use eaburns_sos.Prelude.{
  ℕ, zero, suc, ◌+◌, ◌*◌, ◌/◌, ◌<◌, ◌≤◌, ◌≡◌, ◌∙◌, refl, sym, ap, arith, u32, inl, inr, some, true,
  ltb,
}
use eaburns_sos.Memman.{Memory, frame_len, memman_use_frame, memman_free_frame}
use eaburns_sos.Memman.Space.{limit, Build, frame_user, map_frames, free_frames, all_inside}
use eaburns_sos.Memman.Space.Laws.{
  user_cases, IsUp, one_frame, map_frames_done, map_frames-some, map_frames-none,
}

abbrev pub count_of : Memory → ℕ → ℕ
count_of m g = (m.frame_map g).count

-- the frames have the same counts
abbrev pub SameCounts : Memory → Memory → Type 0
SameCounts m m' = (g : ℕ) → count_of m' g ≡ count_of m g

-- An allocation that succeeded took a frame for its first entry.
pub map_frames_inv :
    (k j l pt : ℕ) (b : Build) (r : ℕ × Build)
    → IsUp b.memory
    → map_frames (suc k) j (suc l) pt b ≡ some r
    → (f : ℕ) × (f < limit b.memory)
      × (count_of b.memory f ≡ 0)
      × (map_frames k (j + 1) l pt (one_frame j pt f b) ≡ some r)
map_frames_inv k j l pt b r up e = elim (user_cases b.memory up) [
  | inr (refused, full) ↦ absurd (cc (map_frames-none k j l pt b refused, e))
  | inl (f, in_map, free, taken) ↦ (f, in_map, free, sym (map_frames-some k j l pt f b taken) ∙ e)
]

pub map_frames_end : (k j pt : ℕ) (b b' : Build) → map_frames k j 0 pt b ≡ some (0, b') → b ≡ b'
map_frames_end k j pt b b' e = cc (map_frames_done k j pt b, e)

-- The frames that are listed already stay.
pub map_frames_listed :
    (k j l pt : ℕ) (b b' : Build) (i : ℕ)
    → IsUp b.memory
    → l ≤ k
    → i < j
    → map_frames k j l pt b ≡ some (0, b')
    → b'.frames i ≡ b.frames i
unfolding memman_use_frame
map_frames_listed k j zero pt b b' i up le h e =
    ap (λ x. x.frames i) (sym (map_frames_end k j pt b b' e))
map_frames_listed zero j (suc l) pt b b' i up le h e = absurd (omega arith)
map_frames_listed (suc k) j (suc l) pt b b' i up le h e =
    let (f, in_map, free, rest) = map_frames_inv k j l pt b (0, b') up e in
    map_frames_listed k (j + 1) l pt (one_frame j pt f b) b' i up (omega arith) (omega arith) rest
    ∙ ground arith

-- The list of the page tables stays.
pub map_frames_pts :
    (k j l pt : ℕ) (b b' : Build)
    → IsUp b.memory
    → l ≤ k
    → map_frames k j l pt b ≡ some (0, b')
    → b'.pts ≡ b.pts
unfolding memman_use_frame
map_frames_pts k j zero pt b b' up le e = ap (λ x. x.pts) (sym (map_frames_end k j pt b b' e))
map_frames_pts zero j (suc l) pt b b' up le e = absurd (omega arith)
map_frames_pts (suc k) j (suc l) pt b b' up le e =
    let (f, in_map, free, rest) = map_frames_inv k j l pt b (0, b') up e in
    map_frames_pts k (j + 1) l pt (one_frame j pt f b) b' up (omega arith) rest

-- The block of the frame map stays.
pub map_frames_allocated :
    (k j l pt : ℕ) (b b' : Build)
    → IsUp b.memory
    → l ≤ k
    → map_frames k j l pt b ≡ some (0, b')
    → b'.memory.allocated ≡ b.memory.allocated
unfolding memman_use_frame
map_frames_allocated k j zero pt b b' up le e =
    ap (λ x. x.memory.allocated) (sym (map_frames_end k j pt b b' e))
map_frames_allocated zero j (suc l) pt b b' up le e = absurd (omega arith)
map_frames_allocated (suc k) j (suc l) pt b b' up le e =
    let (f, in_map, free, rest) = map_frames_inv k j l pt b (0, b') up e in
    map_frames_allocated k (j + 1) l pt (one_frame j pt f b) b' up (omega arith) rest

pub all_inside_lem :
    (n i : ℕ) (frames : ℕ → ℕ) (m : Memory)
    → ((j : ℕ) → i ≤ j → j < i + n → frames j / frame_len < m.allocated)
    → all_inside n i frames m ≡ true
unfolding all_inside
all_inside_lem zero i frames m low = refl
all_inside_lem (suc n) i frames m low =
    let first : ltb (frames i / frame_len) m.allocated ≡ true =
      ground (arith, low i (omega arith) (omega arith)) in
    rw (first, all_inside)
      (all_inside_lem n (i + 1) frames m (λ j lo hi. low j (omega arith) (omega arith)))

-- The frame of the first entry is listed there.
pub map_frames_lists :
    (k j l pt f : ℕ) (b b' : Build)
    → IsUp b.memory
    → f < limit b.memory
    → l ≤ k
    → map_frames k (j + 1) l pt (one_frame j pt f b) ≡ some (0, b')
    → b'.frames j ≡ f * frame_len + 1
unfolding memman_use_frame
map_frames_lists k j l pt f b b' up in_map le e =
    let fits : u32 (f * frame_len + 1) ≡ f * frame_len + 1 = omega arith in
    map_frames_listed k (j + 1) l pt (one_frame j pt f b) b' j up le (omega arith) e ∙ ground arith

pub free_frame-Same :
    (m m' : Memory) (f : ℕ)
    → SameCounts m m'
    → SameCounts (memman_free_frame m f) (memman_free_frame m' f)
unfolding memman_free_frame
free_frame-Same m m' f same g = ground (arith, same g, same f)

free_frame_comm :
    (m : Memory) (a b : ℕ)
    → SameCounts
        (memman_free_frame (memman_free_frame m a) b)
        (memman_free_frame (memman_free_frame m b) a)
unfolding memman_free_frame
free_frame_comm m a b g = ground arith

free_frames-Same :
    (n i : ℕ) (frames : ℕ → ℕ) (m m' : Memory)
    → SameCounts m m'
    → SameCounts (free_frames n i frames m) (free_frames n i frames m')
unfolding free_frames
free_frames-Same zero i frames m m' same = same
free_frames-Same (suc n) i frames m m' same =
    free_frames-Same n (i + 1) frames (memman_free_frame m (frames i / frame_len))
      (memman_free_frame m' (frames i / frame_len))
      (free_frame-Same m m' (frames i / frame_len) same)

-- A frame may as well be freed after the others.
free_frames-free_frame :
    (n i : ℕ) (frames : ℕ → ℕ) (m : Memory) (f : ℕ)
    → SameCounts
        (memman_free_frame (free_frames n i frames m) f)
        (free_frames n i frames (memman_free_frame m f))
unfolding free_frames
free_frames-free_frame zero i frames m f g = refl
free_frames-free_frame (suc n) i frames m f g =
    let x = frames i / frame_len in
    free_frames-Same n (i + 1) frames (memman_free_frame (memman_free_frame m x) f)
      (memman_free_frame (memman_free_frame m f) x) (free_frame_comm m x f) g
    ∙ free_frames-free_frame n (i + 1) frames (memman_free_frame m x) f g

pub free-use_frame :
    (m : Memory) (f : ℕ)
    → count_of m f ≡ 0
    → SameCounts m (memman_free_frame (memman_use_frame m f frame_user) f)
unfolding memman_free_frame memman_use_frame
free-use_frame m f free g = ground arith

-- Freeing the frames that a page table was given leaves the counts of before.
pub free_frames-map_frames :
    (k j l pt : ℕ) (b b' : Build)
    → IsUp b.memory
    → l ≤ k
    → map_frames k j l pt b ≡ some (0, b')
    → SameCounts b.memory (free_frames l j b'.frames b'.memory)
unfolding free_frames memman_use_frame
free_frames-map_frames k j zero pt b b' up le e g =
    ap (λ x. count_of x.memory g) (sym (map_frames_end k j pt b b' e))
free_frames-map_frames zero j (suc l) pt b b' up le e g = absurd (omega arith)
free_frames-map_frames (suc k) j (suc l) pt b b' up le e g =
    let (f, in_map, free, rest) = map_frames_inv k j l pt b (0, b') up e in
    let b1 = one_frame j pt f b in
    let lists = map_frames_lists k j l pt f b b' up in_map (omega arith) rest in
    let back : b'.frames j / frame_len ≡ f = omega (arith, lists) in
    let ih = free_frames-map_frames k (j + 1) l pt b1 b' up (omega arith) rest in
    ap (λ x. count_of (free_frames l (j + 1) b'.frames (memman_free_frame b'.memory x)) g) back
    ∙ free_frames-free_frame l (j + 1) b'.frames b'.memory f g
    ∙ free_frame-Same b1.memory (free_frames l (j + 1) b'.frames b'.memory) f ih g
    ∙ free-use_frame b.memory f free g
