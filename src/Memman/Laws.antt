-- ===== src/Memman/Laws.antt =====
-- Which frame an allocation takes, and what freeing gives back.
use eaburns_sos.Prelude.{
  ℕ, zero, suc, ◌+◌, ◌*◌, ◌<◌, ◌≤◌, ◌≡◌, ◌≢◌, ◌⊎◌, ◌∙◌, refl, ap, true, arith, none, some, ◌==◌,
  if◌then◌else◌, Bool-cases, inl, inr, u32, ltb,
}
use eaburns_sos.Memman.{
  Memory, Frame, frame_len, free_from, get_free_frame, memman_use_frame, memman_free_frame,
  memman_alloc_frame,
}

-- The search gives the first frame in range with a count of 0, or none if there is none.
pub free_from_lem :
    (map : ℕ → Frame) (n i : ℕ)
    → ((f : ℕ) × (free_from map n i ≡ some f)
        × (i ≤ f)
        × (f < i + n)
        × ((map f).count ≡ 0)
        × ((j : ℕ) → i ≤ j → j < f → (map j).count ≢ 0))
      ⊎ ((free_from map n i ≡ none) × ((j : ℕ) → i ≤ j → j < i + n → (map j).count ≢ 0))
unfolding free_from
free_from_lem map zero i = inr (refl, λ j h k e. omega arith)
free_from_lem map (suc n) i = elim (Bool-cases ((map i).count == 0)) [
  | inl free ↦ inl (i, rw free, omega arith, omega arith, ground arith, λ j h k e. omega arith)
  | inr used ↦ elim (free_from_lem map n (i + 1)) [
    | inl (f, e, lo, hi, free, before) ↦ inl (
      f,
      rw used e,
      omega arith,
      omega arith,
      free,
      λ j h l z. ground (arith, before j (ground arith) l),
    )
    | inr (e, all) ↦ inr (rw used e, λ j h l z. ground (arith, all j (ground arith) (omega arith)))
  ]
]

pub get_free_frame_eq :
    (m : Memory) → m.inited ≡ true → get_free_frame m ≡ free_from m.frame_map m.frame_count 0
unfolding get_free_frame
get_free_frame_eq m up = ground arith

pub alloc_some :
    (m : Memory) (flags f : ℕ)
    → m.inited ≡ true
    → free_from m.frame_map m.frame_count 0 ≡ some f
    → memman_alloc_frame m flags ≡ (some (u32 (f * frame_len)), memman_use_frame m f flags)
unfolding memman_alloc_frame
alloc_some m flags f up e = rw (get_free_frame_eq m up ∙ e, memman_alloc_frame)

pub alloc_none :
    (m : Memory) (flags : ℕ)
    → m.inited ≡ true
    → free_from m.frame_map m.frame_count 0 ≡ none
    → memman_alloc_frame m flags ≡ (none, m)
unfolding memman_alloc_frame
alloc_none m flags up e = rw (get_free_frame_eq m up ∙ e, memman_alloc_frame)

-- What an allocation does: it takes a frame that is not in use, or no frame is left.
pub alloc_cases :
    (m : Memory) (flags : ℕ)
    → m.inited ≡ true
    → m.frame_count ≤ 1048576
    → ((f : ℕ) × (f < m.frame_count)
        × ((m.frame_map f).count ≡ 0)
        × (memman_alloc_frame m flags ≡ (some (f * frame_len), memman_use_frame m f flags)))
      ⊎ ((memman_alloc_frame m flags ≡ (none, m))
          × ((j : ℕ) → j < m.frame_count → (m.frame_map j).count ≢ 0))
alloc_cases m flags up small = elim (free_from_lem m.frame_map m.frame_count 0) [
  | inl (f, e, lo, hi, free, before) ↦
      let fits : u32 (f * frame_len) ≡ f * frame_len = omega arith in
      inl (
        f,
        omega arith,
        free,
        alloc_some m flags f up e ∙ ap (λ a. (some a, memman_use_frame m f flags)) fits,
      )
  | inr (e, all) ↦ inr (alloc_none m flags up e, λ j h. all j (omega arith) (omega arith))
]

-- On an initialised manager an allocation either takes the first frame with a count of 0, gives its
-- address, makes its count 1 and leaves every other frame's count; or no frame is left (`j` stands
-- for any), and it fails and changes nothing.
pub memman_alloc_frame_lem :
    (m : Memory) (flags j : ℕ)
    → m.inited ≡ true
    → m.frame_count ≤ 1048576
    → j < m.frame_count
    → let (address, m') = memman_alloc_frame m flags in
      ((f : ℕ) × (address ≡ some (f * frame_len))
        × (f < m.frame_count)
        × ((m.frame_map f).count ≡ 0)
        × ((f ≤ j) ⊎ ((m.frame_map j).count ≢ 0))
        × ((m'.frame_map j).count ≡ (if j == f then 1 else (m.frame_map j).count)))
      ⊎ ((address ≡ none) × (m' ≡ m) × ((m.frame_map j).count ≢ 0))
unfolding memman_use_frame
memman_alloc_frame_lem m flags j up small hj = elim (free_from_lem m.frame_map m.frame_count 0) [
  | inl (f, e, lo, hi, free, before) ↦
      let fits : u32 (f * frame_len) ≡ f * frame_len = omega arith in
      inl (
        f,
        rw (alloc_some m flags f up e) (ap some fits),
        omega arith,
        free,
        first f j (before j),
        rw (alloc_some m flags f up e) (ground arith),
      )
  | inr (e, all) ↦ inr (
    rw (alloc_none m flags up e),
    rw (alloc_none m flags up e),
    all j (omega arith) (omega arith),
  )
]
  where
    first :
        (f j : ℕ)
        → (0 ≤ j → j < f → (m.frame_map j).count ≢ 0)
        → (f ≤ j) ⊎ ((m.frame_map j).count ≢ 0)
    first f j before = elim (Bool-cases (ltb j f)) [
      | inl h ↦ inr (before (omega arith) (ground arith))
      | inr h ↦ inl (ground arith)
    ]

-- Counts are a balance: a use of a frame and then a free of it leave every count as it was, as long
-- as the count is below 255; a free of an unused frame changes nothing.
pub free_use_frame :
    (m : Memory) (f flags j : ℕ)
    → (m.frame_map f).count < 255
    → (((memman_free_frame (memman_use_frame m f flags) f).frame_map j).count
        ≡ (m.frame_map j).count)
      × ((memman_free_frame m f ≡ m) ⊎ (0 < (m.frame_map f).count))
unfolding memman_free_frame memman_use_frame
free_use_frame m f flags j h = (ground arith, unused)
  where
    unused : (memman_free_frame m f ≡ m) ⊎ (0 < (m.frame_map f).count)
    unused = elim (Bool-cases ((m.frame_map f).count == 0)) [
      | inl z ↦ inl (rw z)
      | inr nz ↦ inr (ground arith)
    ]
