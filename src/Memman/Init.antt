-- ===== src/Memman/Init.antt =====
-- What `init_memman` of kernel/memman.c reserves, and how much of the map it allocates.
use eaburns_sos.Prelude.{
  ℕ, zero, suc, ◌+◌, ◌*◌, ◌/◌, ◌<◌, ◌≤◌, ◌≡◌, refl, ap, arith, Option, some, ReturnCode,
  ret_success, u32,
}
use eaburns_sos.Memman.Laws.{alloc_some}
use eaburns_sos.Memman.{
  Memory, Frame, frame_len, free_from, initialised, init_memman, memman_alloc_frame,
}

free_from_skip :
    (map : ℕ → Frame) (n k i f : ℕ)
    → f ≡ i + k
    → ((j : ℕ) → j < f → (map j).count ≡ 255)
    → (map f).count ≡ 0
    → k < n
    → free_from map n i ≡ some f
unfolding free_from
free_from_skip map zero k i f e used free h = absurd (omega arith)
free_from_skip map (suc n) zero i f e used free h =
    let e' : i ≡ f = omega arith in rw e' (ground arith)
free_from_skip map (suc n) (suc k) i f e used free h =
    ground (arith, used i (omega arith), free_from_skip map n k (i + 1) f (omega arith) used free)

init_memman_eq :
    (memory_size : ℕ) (kalloc : ℕ → Option (ℕ → Frame)) (m : Memory) (block : ℕ → Frame)
    → memory_size < 4194304
    → kalloc ((memory_size / 4 / 32 + 1) * 4) ≡ some block
    → init_memman memory_size kalloc m ≡ (ret_success, initialised (memory_size / 4) block)
unfolding init_memman
init_memman_eq memory_size kalloc m block hi got =
    let e : u32 (memory_size * 1024) / frame_len ≡ memory_size / 4 = omega arith in
    rw (e, init_memman)
      (rw (got, init_memman)
        (ap {B = ReturnCode × Memory} (λ k. (ret_success, initialised k block)) e))

-- With at least 4 MB of memory, `init_memman` takes from `kalloc` fewer frames of map than it later
-- looks through, and of the first 4 MB (1024 frames), which are the kernel's, it reserves the first 32 frames
-- only: the first allocation gives address 0x20000.
pub init_memman_lem :
    (memory_size flags : ℕ) (kalloc : ℕ → Option (ℕ → Frame)) (m : Memory) (block : ℕ → Frame)
    → 4096 ≤ memory_size
    → memory_size < 4194304
    → kalloc ((memory_size / 4 / 32 + 1) * 4) ≡ some block
    → let (code, m') = init_memman memory_size kalloc m in
      (code ≡ ret_success)
      × (m'.allocated < m'.frame_count)
      × ((memman_alloc_frame m' flags).0 ≡ some 0x20000)
init_memman_lem memory_size flags kalloc m block lo hi got =
    let e = init_memman_eq memory_size kalloc m block hi got in
    rw e (
      refl,
      omega arith,
      ap (λ (r : Option ℕ × Memory). r.0)
          (alloc_some (initialised (memory_size / 4) block) flags 32 refl (
            free_from_skip (initialised (memory_size / 4) block).frame_map (memory_size / 4) 32 0 32
              (omega arith) (λ j h. ground arith) (ground arith) (omega arith))),
    )
