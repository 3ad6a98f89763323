-- ===== src/Memman/Space.antt =====
-- The address spaces of processes: `alloc_addr_space` and `free_addr_space` of kernel/memman.c.
-- The arrays that `kalloc` gives are kept by index, apart from the words of memory; before they are
-- written they hold what was there. The code does not look whether `kalloc` gave NULL,
-- and then both arrays start at address 0. What the frames hold is kept apart from the heap: the
-- kernel and what is used of its heap are taken to lie below the frames that `init_memman` leaves free.
pub mod Laws
pub mod Count
pub mod Balance
pub mod Outcome
pub mod Pages
pub mod Table
pub mod Result
pub mod Owned
pub mod Tests
use eaburns_sos.Prelude.{
  ℕ, zero, suc, ◌+◌, ◌-◌, ◌*◌, ◌/◌, true, false, Bool, not, ◌&&◌, ◌||◌, ltb, min, Option, none,
  some, ◌==◌, if◌then◌else◌, u32, ◌>>=◌,
}
use eaburns_sos.Prelude.Chain.{null}
use eaburns_sos.Alloc.Kalloc.{Kalloc, kalloc, kfree}
use eaburns_sos.Memman.{Memory, frame_len, get_free_frame, memman_alloc_frame, memman_free_frame}
use eaburns_sos.Memman.Paging.{
  pt_entries, word_size, store, clear_words, frame_to_pte_user, frame_to_pde_user,
}

-- FRAME_USER
abbrev pub frame_user : ℕ
frame_user = 0

-- MEMSPACE_USER_MEM, where the memory of a process begins
abbrev pub user_mem : ℕ
user_mem = 0x40000000

-- KERN_PD_OFFSET
abbrev pub kern_pd_offset : ℕ
kern_pd_offset = user_mem / (frame_len * pt_entries)

-- `addr_space_t`, with the addresses of its two arrays
pub record AddrSpace : Type 0 where
  pub pd : ℕ
  pub num_frames : ℕ
  pub frames_at : ℕ
  pub frames : ℕ → ℕ
  pub num_pts : ℕ
  pub pts_at : ℕ
  pub pts : ℕ → ℕ

-- What the two functions work on: the frames, the kernel heap, the words of physical memory and
-- the address of the kernel's page directory.
pub record Machine : Type 0 where
  pub memory : Memory
  pub heap : Kalloc
  pub words : ℕ → ℕ
  pub kern_page_dir : ℕ

-- How many entries of the frame map lie in the block that `kalloc` gave for it.
abbrev pub limit : Memory → ℕ
limit m = min m.allocated m.frame_count

-- whether a search that finds no free frame among them reads on past the block
abbrev pub is_short : Memory → Bool
is_short m = m.inited && ltb m.allocated m.frame_count

-- MEMMAN_ALLOC_USER_FRAME, as far as the map's block goes: `none` is that no entry of the block is
-- free. Then there is an error, or the search goes on in what the heap holds after the block.
unfoldable pub user_frame : Memory → Option ℕ × Memory
user_frame m = elim (get_free_frame m) [
  | none ↦ (none, m)
  | some f ↦ if ltb f m.allocated then memman_alloc_frame m frame_user else (none, m)
]

-- What the loops over the page tables change.
pub record Build : Type 0 where
  pub memory : Memory
  pub words : ℕ → ℕ
  pub frames : ℕ → ℕ
  pub pts : ℕ → ℕ

-- The inner loop at entry `j` of the page table at `pt`, with `k` entries and `left` frames to go.
-- `none` is that `user_frame` has none. If that is an error, the frames are given back by loops over an
-- unsigned index that never falls below 0, so the call does not come back.
unfoldable pub map_frames : (k j left pt : ℕ) → Build → Option (ℕ × Build)
map_frames zero j left pt b = some (left, b)
map_frames (suc k) j left pt b = elim (left == 0) [
  | true ↦ some (left, b)
  | false ↦
      let (frame, m) = user_frame b.memory in
      elim frame [
        | none ↦ none
        | some f ↦ map_frames k (j + 1) (left - 1) pt (record b {
          memory = m;
          frames = store b.frames j (u32 (f + 1));
          words = store b.words (pt + j * word_size) (frame_to_pte_user (u32 (f + 1)));
        })
      ]
]

-- The outer loop at page table `i`, with `k` tables to go.
unfoldable pub map_space : (k i left pd : ℕ) → Build → Option Build
map_space zero i left pd b = some b
map_space (suc k) i left pd b =
    let (table, m) = user_frame b.memory in
    elim table [
      | none ↦ none
      | some pt ↦
          map_frames pt_entries 0 left pt (record b { memory = m; pts = store b.pts i pt }) >>= λ r.
          map_space k (i + 1) r.0 pd (record r.1 {
            words = store r.1.words (pd + (i + kern_pd_offset) * word_size) (frame_to_pde_user pt);
          })
    ]

-- The last loop: `n` entries of the kernel's page directory `kern`, from entry `i` on.
unfoldable pub share_kernel : (n i pd kern : ℕ) → (ℕ → ℕ) → ℕ → ℕ
share_kernel zero i pd kern words = words
share_kernel (suc n) i pd kern words =
    share_kernel n (i + 1) pd kern (store words (pd + i * word_size) (words (kern + i * word_size)))

-- What `alloc_addr_space` gives: the address space, RET_FAILURE, or what cannot be said: a loop that
-- does not end, an access past the block of the frame map, or one through NULL.
pub data Space : Type 0 where
  made : AddrSpace → Machine → Space
  refused : Machine → Space
  lost : Space

abbrev pub num_frames_of : ℕ → ℕ
num_frames_of size = size / frame_len + 1

abbrev pub num_pts_of : ℕ → ℕ
num_pts_of size = num_frames_of size / pt_entries + 1

-- the loops, once the page directory is cleared
unfoldable pub finish_space : (size frames_at pts_at pd : ℕ) → Machine → Option Build → Space
finish_space size frames_at pts_at pd s none = lost
finish_space size frames_at pts_at pd s (some b) =
    made
      (record {
        pd = pd;
        num_frames = num_frames_of size;
        frames_at = frames_at;
        frames = b.frames;
        num_pts = num_pts_of size;
        pts_at = pts_at;
        pts = b.pts;
      })
      (record s {
        memory = b.memory;
        words = share_kernel kern_pd_offset 0 pd s.kern_page_dir b.words;
      })

-- `frames` and `pts` are what the new arrays hold. An outer `none` is that the fuel of a loop of the
-- heap ran out.
unfoldable pub alloc_addr_space :
    (fuel : ℕ) → (size : ℕ) → (frames pts : ℕ → ℕ) → Machine → Option Space
alloc_addr_space fuel size frames pts s = do
  (frames_at, h1) ← kalloc fuel s.heap (num_frames_of size * word_size)
  (pts_at, h2) ← kalloc fuel h1 (num_pts_of size * word_size)
  let (page_dir, m) = user_frame s.memory
  elim page_dir [
    | none ↦ if is_short s.memory then some lost else (do
      h3 ← kfree fuel h2 frames_at
      h4 ← kfree fuel h3 pts_at
      some (refused (record s { heap = h4; memory = m })))
    | some pd ↦
        if frames_at == null || pts_at == null
        then some lost
        else some (
            finish_space size frames_at pts_at pd (record s { heap = h2 })
              (map_space (num_pts_of size) 0 (num_frames_of size) pd (record {
                memory = m;
                words = clear_words (frame_len / word_size) pd s.words;
                frames = frames;
                pts = pts;
              })))
  ]

-- a loop of `free_addr_space` at index `i`, with `n` frames left
unfoldable pub free_frames : (n i : ℕ) → (ℕ → ℕ) → Memory → Memory
free_frames zero i frames m = m
free_frames (suc n) i frames m =
    free_frames n (i + 1) frames (memman_free_frame m (frames i / frame_len))

-- the frames that an address space gives back
unfoldable pub release_space : AddrSpace → Memory → Memory
release_space a m =
    memman_free_frame (free_frames a.num_pts 0 a.pts (free_frames a.num_frames 0 a.frames m))
      (a.pd / frame_len)

-- whether the frames at `n` listed addresses, from index `i` on, have entries within the map's block
unfoldable pub all_inside : (n i : ℕ) → (ℕ → ℕ) → Memory → Bool
all_inside zero i frames m = true
all_inside (suc n) i frames m =
    ltb (frames i / frame_len) m.allocated && all_inside n (i + 1) frames m

unfoldable pub is_inside : AddrSpace → Memory → Bool
is_inside a m =
    all_inside a.num_frames 0 a.frames m
    && all_inside a.num_pts 0 a.pts m
    && ltb (a.pd / frame_len) m.allocated

-- `none` is also an access past the block of the frame map.
unfoldable pub free_addr_space : (fuel : ℕ) → AddrSpace → Machine → Option Machine
free_addr_space fuel a s = if not (is_inside a s.memory) then none else (do
  h1 ← kfree fuel s.heap a.frames_at
  h2 ← kfree fuel h1 a.pts_at
  some (record s { memory = release_space a s.memory; heap = h2 }))
