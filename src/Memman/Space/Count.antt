-- ===== src/Memman/Space/Count.antt =====
-- How many frames are free, and what the functions of kernel/memman.c do to that number.
use eaburns_sos.Prelude.{
  ℕ, zero, suc, ◌+◌, ◌<◌, ◌≡◌, ◌≢◌, refl, arith, ◌==◌, if◌then◌else◌, inl, inr, Nat-cases,
}
use eaburns_sos.Memman.Space.{limit}
use eaburns_sos.Memman.{Memory, Frame, memman_use_frame}

-- how many of the first `n` frames are free
unfoldable pub free_below : (ℕ → Frame) → ℕ → ℕ
free_below map zero = 0
free_below map (suc n) = (if (map n).count == 0 then 1 else 0) + free_below map n

-- how many frames with an entry in the map's block are free
abbrev pub free_count : Memory → ℕ
free_count m = free_below m.frame_map (limit m)

free_below_same :
    (map map' : ℕ → Frame) (n : ℕ)
    → ((j : ℕ) → j < n → (map' j).count ≡ (map j).count)
    → free_below map' n ≡ free_below map n
unfolding free_below
free_below_same map map' zero same = refl
free_below_same map map' (suc n) same =
    ground (arith, same n (omega arith), free_below_same map map' n (λ j h. same j (omega arith)))

free_below_use :
    (m : Memory) (f flags n : ℕ)
    → (m.frame_map f).count ≡ 0
    → f < n
    → suc (free_below (memman_use_frame m f flags).frame_map n) ≡ free_below m.frame_map n
unfolding free_below memman_use_frame
free_below_use m f flags zero free h = absurd (omega arith)
free_below_use m f flags (suc n) free h = elim (Nat-cases f n) [
  | inl last ↦ ground (
    arith,
    free_below_same m.frame_map (memman_use_frame m f flags).frame_map n (λ j h. ground arith),
  )
  | inr before ↦ ground (arith, free_below_use m f flags n free (omega arith))
]

-- Taking a free frame leaves one less.
pub free_count-use_frame :
    (m : Memory) (f flags : ℕ)
    → (m.frame_map f).count ≡ 0
    → f < limit m
    → suc (free_count (memman_use_frame m f flags)) ≡ free_count m
unfolding memman_use_frame
free_count-use_frame m f flags free h = free_below_use m f flags (limit m) free h

free_below_full :
    (map : ℕ → Frame) (n : ℕ) → ((j : ℕ) → j < n → (map j).count ≢ 0) → free_below map n ≡ 0
unfolding free_below
free_below_full map zero full = refl
free_below_full map (suc n) full =
    let last = full n (omega arith) in
    ground (arith, last, free_below_full map n (λ j h. full j (omega arith)))

pub free_count_full :
    (m : Memory) → ((j : ℕ) → j < limit m → (m.frame_map j).count ≢ 0) → free_count m ≡ 0
free_count_full m full = free_below_full m.frame_map (limit m) full
