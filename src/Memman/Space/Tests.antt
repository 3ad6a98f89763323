-- ===== src/Memman/Space/Tests.antt =====
-- Address spaces on a machine as `init_memman` and `init_paging` leave it.
use eaburns_sos.Prelude.{
  ◌+◌, ◌<◌, ℕ, ◌*◌, ◌≤◌, ◌≡◌, refl, ◌==◌, if◌then◌else◌, Option, some, [], ◌∷◌, arith,
}
use eaburns_sos.Alloc.{
  alloc, find_fit, take_block, set_slot_len, set_slot_next, round_up, split, push_used, unlink_free,
}
use eaburns_sos.Alloc.Kalloc.{Kalloc, kalloc}
use eaburns_sos.Alloc.Client.{Holds}
use eaburns_sos.Memman.{
  Memory, frame_len, full_frame, initialised, get_free_frame, memman_alloc_frame, memman_use_frame,
}
use eaburns_sos.Memman.Space.{
  AddrSpace, Machine, Space, made, alloc_addr_space, map_space, map_frames, finish_space,
  user_frame,
}
use eaburns_sos.Memman.Space.Laws.{IsUp}
use eaburns_sos.Memman.Space.Outcome.{Ends, alloc_addr_space_lem}
use eaburns_sos.Memman.Space.Result.{
  Mapped, alloc_addr_space_pages, Back, free_addr_space-alloc_addr_space,
}

-- A heap of 4000 bytes at 1000, of which the frame map has the first block: 516 bytes.
abbrev pub map_heap : Kalloc
map_heap = record {
  kalloc_base = 1000;
  inited = 1;
  region = record {
    free_list = 1532;
    used_list = 1008;
    slot = λ a. record { next = 0; len = if a == 1532 then 3460 else if a == 1008 then 516 else 0 };
  };
}

pub fuelled-Holds : (fuel n : ℕ) → 1 + n < fuel → Holds 1000 4000 fuel (1008 ∷ []) n map_heap
fuelled-Holds fuel n h = (
  1532 ∷ [],
  (
    (refl, omega arith, refl, refl),
    (refl, omega arith, refl, refl),
    λ x. ground arith,
    omega arith,
    refl,
  ),
  refl,
  omega arith,
  omega arith,
)

pub map_heap-Holds : (n : ℕ) → n ≤ 10 → Holds 1000 4000 20 (1008 ∷ []) n map_heap
map_heap-Holds n h = fuelled-Holds 20 n (omega arith)

-- What `init_memman` leaves on a machine with 16 MB: 4096 frames, 129 entries in the block of the map,
-- 32 of them in use. `init_paging` took five frames then, the first one for the kernel's directory.
abbrev pub memory : Memory
memory =
    memman_use_frame
      (memman_use_frame
        (memman_use_frame
          (memman_use_frame (memman_use_frame (initialised 4096 (λ i. full_frame)) 32 1) 33 1) 34 1)
        35 1)
      36 1

abbrev pub machine : Machine
machine = record {
  memory = memory;
  heap = map_heap;
  words = λ a. a;
  kern_page_dir = 32 * frame_len;
}

pub machine-IsUp : IsUp machine.memory
unfolding memman_use_frame
machine-IsUp = (refl, omega arith)

abbrev zeros : ℕ → ℕ
zeros i = 0

space_example :
    Ends 1000 4000 20 (1008 ∷ []) 0x1000 machine (alloc_addr_space 20 0x1000 zeros zeros machine)
space_example =
    alloc_addr_space_lem 1000 4000 20 (1008 ∷ []) 0x1000 zeros zeros machine
      (map_heap-Holds 4 (omega arith)) machine-IsUp (omega arith)

-- what a call gives, with a value for the other cases
abbrev space_in : Option Space → AddrSpace
space_in (some (made a s)) = a
space_in r = record {
  pd = 0;
  num_frames = 0;
  frames_at = 0;
  frames = zeros;
  num_pts = 0;
  pts_at = 0;
  pts = zeros;
}

abbrev machine_in : Option Space → Machine
machine_in (some (made a s)) = s
machine_in r = machine

abbrev two_pages : Option Space
two_pages = alloc_addr_space 20 0x1000 zeros zeros machine

two_pages-made : two_pages ≡ some (made (space_in two_pages) (machine_in two_pages))
unfolding alloc_addr_space kalloc alloc find_fit round_up take_block push_used set_slot_next split
    unlink_free set_slot_len memman_alloc_frame get_free_frame finish_space map_space
    memman_use_frame map_frames user_frame
two_pages-made = refl

pages_example : Mapped machine (machine_in two_pages) (space_in two_pages) 32 0 1 100
unfolding memman_use_frame
pages_example =
    alloc_addr_space_pages 1000 4000 20 (1008 ∷ []) 0x1000 32 zeros zeros machine
      (machine_in two_pages) (space_in two_pages) 0 1 100 (map_heap-Holds 4 (omega arith))
      machine-IsUp (omega arith) refl (omega arith) two_pages-made (omega arith) (omega arith)
      (omega arith)

free_space_example :
    Back 1000 4000 20 (1008 ∷ []) machine (space_in two_pages) (machine_in two_pages)
free_space_example =
    free_addr_space-alloc_addr_space 1000 4000 20 (1008 ∷ []) 0x1000 zeros zeros machine
      (machine_in two_pages) (space_in two_pages) (map_heap-Holds 4 (omega arith)) machine-IsUp
      (omega arith) two_pages-made
