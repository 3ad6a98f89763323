-- ===== src/Memman.antt =====
-- The physical frames: kernel/memman.c and kernel/include/memman.h.
pub mod Laws
pub mod Init
pub mod Paging
pub mod Space
mod Tests
use eaburns_sos.Prelude.{
  ℕ, zero, suc, ◌+◌, ◌-◌, ◌*◌, ◌/◌, ◌%◌, Bool, true, false, not, ◌&&◌, ◌||◌, Option, none, some,
  ◌==◌, ltb, if◌then◌else◌, u8, u32, ReturnCode, ret_failure, ret_success,
}

-- `frame_t`, its bit fields of 1, 7 and 8 bits
pub record Frame : Type 0 where
  pub ns : ℕ
  pub res : ℕ
  pub count : ℕ

-- FRAME_LEN and ARCH_FRAME_SIZE
abbrev pub frame_len : ℕ
frame_len = 0x1000

-- The file's variables. `frame_map` is the memory from the map's address on, read as an array of
-- frames; `allocated` is how many frames of it `kalloc` gave.
pub record Memory : Type 0 where
  pub frame_count : ℕ
  pub frame_map : ℕ → Frame
  pub allocated : ℕ
  pub inited : Bool

abbrev pub put : Memory → ℕ → Frame → Memory
put m f v = record m { frame_map = λ i. if i == f then v else m.frame_map i }

-- The loop of `get_free_frame`, over `n` frames from `i` on.
unfoldable pub free_from : (ℕ → Frame) → ℕ → ℕ → Option ℕ
free_from map zero i = none
free_from map (suc n) i =
    let rest = free_from map n (i + 1) in if (map i).count == 0 then some i else rest

-- `none` is `*error = 1`.
unfoldable pub get_free_frame : Memory → Option ℕ
unfolding free_from
get_free_frame m = if m.inited then free_from m.frame_map m.frame_count 0 else none

-- The count has 8 bits.
unfoldable pub memman_use_frame : Memory → (f flags : ℕ) → Memory
memman_use_frame m f flags =
    put m f (record (m.frame_map f) { count = u8 ((m.frame_map f).count + 1); ns = flags % 2 })

unfoldable pub memman_free_frame : Memory → ℕ → Memory
memman_free_frame m f =
    let v = m.frame_map f in if v.count == 0 then m else put m f (record v { count = v.count - 1 })

-- The frame's physical address, or `none` on error.
unfoldable pub memman_alloc_frame : Memory → (flags : ℕ) → Option ℕ × Memory
memman_alloc_frame m flags = elim (get_free_frame m) [
  | none ↦ (none, m)
  | some f ↦ (some (u32 (f * frame_len)), memman_use_frame m f flags)
]

-- a frame whose bits are all 0, and one whose bits are all 1
abbrev pub zero_frame : Frame
zero_frame = record { ns = 0; res = 0; count = 0 }

abbrev pub full_frame : Frame
full_frame = record { ns = 1; res = 127; count = 255 }

-- sizeof(frame_t): three bit fields of `unsigned` share one word
abbrev pub frame_size : ℕ
frame_size = 4

-- The map after the two calls of `memset`, on memory that held `block`: the first one clears
-- `frame_elems` words, the second one sets 128 bytes.
abbrev pub initialised : (frame_count : ℕ) → (block : ℕ → Frame) → Memory
initialised frame_count block = record {
  frame_count = frame_count;
  frame_map = λ i.
      if ltb i (0x400000 / frame_len / 8 / frame_size)
      then full_frame
      else if ltb i (frame_count / 32 + 1)
      then zero_frame
      else block i;
  allocated = frame_count / 32 + 1;
  inited = true;
}

-- `init_memman`, with `frame_elems` written out. `kalloc` gives the block for a number of bytes, if
-- it has one, as the memory from the block's address on.
unfoldable pub init_memman :
    (memory_size : ℕ) → (kalloc : ℕ → Option (ℕ → Frame)) → Memory → ReturnCode × Memory
init_memman memory_size kalloc m =
    let frame_count = u32 (memory_size * 1024) / frame_len in
    elim (kalloc ((frame_count / 32 + 1) * frame_size)) [
      | none ↦ (ret_failure, record m { frame_count = frame_count; allocated = 0 })
      | some block ↦ (ret_success, initialised frame_count block)
    ]
