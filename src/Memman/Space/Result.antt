-- ===== src/Memman/Space/Result.antt =====
-- The address space of a process of up to 1023 pages, which has one page table: what it maps, and
-- that `free_addr_space` gives all of it back.
use mathlib.Core.Path.{subst}
use eaburns_sos.Prelude.{
  suc, ℕ, ◌+◌, ◌*◌, ◌/◌, ◌<◌, ◌≤◌, ◌≡◌, ◌≢◌, ◌∙◌, refl, sym, ap, arith, List, some, true, ltb,
  Bool-cases, inl, inr, ◌⊎◌,
}
use eaburns_sos.Alloc.Kalloc.{Kalloc, kfree, kfree_at}
use eaburns_sos.Alloc.Client.{Holds, Pair}
use eaburns_sos.Memman.{frame_len, memman_use_frame, memman_free_frame}
use eaburns_sos.Memman.Paging.{pt_entries, word_size, frame_to_pte_user, frame_to_pde_user}
use eaburns_sos.Memman.Paging.Map.{word_at}
use eaburns_sos.Memman.Space.{
  limit, AddrSpace, Machine, made, Build, kern_pd_offset, num_frames_of, num_pts_of, map_frames,
  map_space, alloc_addr_space, free_frames, release_space, is_inside, all_inside, free_addr_space,
}
use eaburns_sos.Memman.Space.Laws.{IsUp, with_table, with_entry}
use eaburns_sos.Memman.Space.Outcome.{start, space_of, machine_of, alloc_addr_space_inv}
use eaburns_sos.Memman.Space.Balance.{count_of, SameCounts}
use eaburns_sos.Memman.Space.Table.{
  one_table, was_free, directory_entry, table_word, kernel_entry, page, distinct_pages, released,
  inside,
}

-- Page `i` of the process: its frame was free and is in use now, and the table in frame `t` has it.
abbrev pub HasPage : (s s' : Machine) → AddrSpace → (t i : ℕ) → Type 0
HasPage s s' a t i =
    (f : ℕ) × (a.frames i ≡ f * frame_len + 1)
    × (s'.words (word_at t i) ≡ frame_to_pte_user (f * frame_len + 1))
    × (f < limit s.memory)
    × (count_of s.memory f ≡ 0)
    × (count_of s'.memory f ≡ 1)

-- what a call that succeeds for up to 1023 pages has done
abbrev OneSpace :
    (base total fuel : ℕ) (us : List ℕ) (calls size : ℕ) (frames pts : ℕ → ℕ) (s : Machine)
    → AddrSpace
    → Machine
    → Type 0
OneSpace base total fuel us calls size frames pts s a s' =
    (p : Pair base total fuel us calls s.heap (num_frames_of size * word_size)
      (num_pts_of size * word_size))
    × (d : ℕ) × (t : ℕ) × (x1 : Build) × (d < limit s.memory)
    × (t < limit s.memory)
    × (count_of s.memory d ≡ 0)
    × (count_of (start frames pts d s).memory t ≡ 0)
    × (map_frames pt_entries 0 (num_frames_of size) (t * frame_len)
          (with_table 0 t (start frames pts d s))
        ≡ some (0, x1))
    × (a ≡ space_of size p.a p.b (d * frame_len) (with_entry 0 (d * frame_len) (t * frame_len) x1))
    × (s' ≡ machine_of (d * frame_len) s p.k2 (with_entry 0 (d * frame_len) (t * frame_len) x1))

pub one_space :
    (base total fuel : ℕ) (us : List ℕ) (calls size : ℕ) (frames pts : ℕ → ℕ) (s s' : Machine)
    (a : AddrSpace)
    → Holds base total fuel us (suc (suc (suc (suc calls)))) s.heap
    → IsUp s.memory
    → size < 1023 * frame_len
    → alloc_addr_space fuel size frames pts s ≡ some (made a s')
    → OneSpace base total fuel us calls size frames pts s a s'
unfolding memman_use_frame
one_space base total fuel us calls size frames pts s s' a holds up small e =
    let (p, d, x, in_map, free, eq, a_is, s_is) =
      alloc_addr_space_inv base total fuel us calls size frames pts s s' a holds up (omega arith)
        e in
    let n = num_frames_of size in
    let one : num_pts_of size ≡ 1 = omega arith in
    let x0 = start frames pts d s in
    let eq1 = subst (λ m. map_space m 0 n (d * frame_len) x0 ≡ some x) one eq in
    let (t, x1, t_in, t_free, done, x_is) = one_table n (d * frame_len) x0 x up (omega arith) eq1 in
    (
      p,
      d,
      t,
      x1,
      in_map,
      t_in,
      free,
      t_free,
      done,
      a_is ∙ ap (space_of size p.a p.b (d * frame_len)) x_is,
      s_is ∙ ap (machine_of (d * frame_len) s p.k2) x_is,
    )

-- The directory of `a` has the kernel's entry `k` and a page table with the pages `i` and `i'`, which
-- are different frames if they are two pages; the kernel's directory is in frame `kd`.
abbrev pub Mapped : (s s' : Machine) → AddrSpace → (kd i i' k : ℕ) → Type 0
Mapped s s' a kd i i' k =
    (d : ℕ) × (t : ℕ) × (a.pd ≡ d * frame_len)
    × (s'.words (word_at d kern_pd_offset) ≡ frame_to_pde_user (t * frame_len))
    × (s'.words (word_at d k) ≡ s.words (word_at kd k))
    × HasPage s s' a t i
    × HasPage s s' a t i'
    × ((i ≡ i') ⊎ (a.frames i ≢ a.frames i'))

-- Where `alloc_addr_space` succeeds for up to 1023 pages, while the kernel's page directory is in a
-- frame in use, the new directory has the kernel's entries and one page table, in which every page of
-- the process is a frame that was free and is in use now and has its entry within the block of the frame
-- map, and no two pages are the same frame.
pub alloc_addr_space_pages :
    (base total fuel : ℕ) (us : List ℕ) (size kd : ℕ) (frames pts : ℕ → ℕ) (s s' : Machine)
    (a : AddrSpace) (i i' k : ℕ)
    → Holds base total fuel us 4 s.heap
    → IsUp s.memory
    → size < 1023 * frame_len
    → s.kern_page_dir ≡ kd * frame_len
    → count_of s.memory kd ≢ 0
    → alloc_addr_space fuel size frames pts s ≡ some (made a s')
    → i < num_frames_of size
    → i' < num_frames_of size
    → k < kern_pd_offset
    → Mapped s s' a kd i i' k
unfolding memman_use_frame
alloc_addr_space_pages base total fuel us size kd frames pts s s' a i i' k holds up small at used e
      lo hi hk =
    let (p, d, t, x1, d_in, t_in, d_free, t_free, done, a_is, s_is) =
      one_space base total fuel us 0 size frames pts s s' a holds up small e in
    let n = num_frames_of size in
    let x = with_entry 0 (d * frame_len) (t * frame_len) x1 in
    let b = space_of size p.a p.b (d * frame_len) x in
    let r = machine_of (d * frame_len) s p.k2 x in
    let le : n ≤ 1023 = omega arith in
    let has_page : (l : ℕ) → l < n → HasPage s r b t l = λ l h.
      let (f, listed, word, in_map, free, now) =
        page n frames pts s d t x1 up le d_free t_free done l h in
      (
        f,
        listed,
        table_word n frames pts s d t x1 up le d_free t_free done l (omega arith) ∙ word,
        in_map,
        was_free n frames pts s d t x1 up le d_free t_free done f free,
        now,
      ) in
    let two = distinct_pages n frames pts s d t x1 up le d_free t_free done in
    let distinct : (i ≡ i') ⊎ (b.frames i ≢ b.frames i') = elim (Bool-cases (ltb i i')) [
      | inl less ↦ inr (two i i' (ground arith) hi)
      | inr no_less ↦ elim (Bool-cases (ltb i' i)) [
        | inl more ↦ inr (λ same. two i' i (ground arith) lo (sym same))
        | inr no_more ↦ inl (ground arith)
      ]
    ] in
    let all : Mapped s r b kd i i' k = (
      d,
      t,
      refl,
      directory_entry n frames pts s d t x1 up le d_free t_free done,
      kernel_entry n frames pts s d t x1 up le d_free t_free done kd k at used hk,
      has_page i lo,
      has_page i' hi,
      distinct,
    ) in
    subst (λ q. Mapped s s' q kd i i' k) (sym a_is)
      (subst (λ q. Mapped s q b kd i i' k) (sym s_is) all)

-- `free_addr_space` gives back all that was taken since `s`.
abbrev pub Back :
    (base total fuel : ℕ) → (us : List ℕ) → (s : Machine) → AddrSpace → Machine → Type 0
Back base total fuel us s a s' =
    (s2 : Machine) × (free_addr_space fuel a s' ≡ some s2)
    × SameCounts s.memory s2.memory
    × Holds base total fuel us 0 s2.heap

pub free_addr_space_eq :
    (fuel : ℕ) (a : AddrSpace) (s : Machine) (k3 k4 : Kalloc)
    → is_inside a s.memory ≡ true
    → kfree fuel s.heap a.frames_at ≡ some k3
    → kfree fuel k3 a.pts_at ≡ some k4
    → free_addr_space fuel a s ≡ some (record s { memory = release_space a s.memory; heap = k4 })
unfolding free_addr_space
free_addr_space_eq fuel a s k3 k4 within third fourth =
    rw (within, free_addr_space) (rw third (rw fourth refl))

-- the heap and the frames of an address space that was made
abbrev pub Takes :
    (base total fuel : ℕ) (us : List ℕ) (calls size : ℕ) → Machine → AddrSpace → Machine → Type 0
Takes base total fuel us calls size s a s' =
    (p : Pair base total fuel us calls s.heap (num_frames_of size * word_size)
      (num_pts_of size * word_size))
    × (s'.heap ≡ p.k2)
    × (a.frames_at ≡ p.a)
    × (a.pts_at ≡ p.b)
    × SameCounts s.memory (release_space a s'.memory)
    × (is_inside a s'.memory ≡ true)

pub there_and_back :
    (base total fuel : ℕ) (us : List ℕ) (calls size : ℕ) (frames pts : ℕ → ℕ) (s s' : Machine)
    (a : AddrSpace)
    → Holds base total fuel us (suc (suc (suc (suc calls)))) s.heap
    → IsUp s.memory
    → size < 1023 * frame_len
    → alloc_addr_space fuel size frames pts s ≡ some (made a s')
    → Takes base total fuel us calls size s a s'
unfolding memman_use_frame release_space is_inside
there_and_back base total fuel us calls size frames pts s s' a holds up small e =
    let (p, d, t, x1, d_in, t_in, d_free, t_free, done, a_is, s_is) =
      one_space base total fuel us calls size frames pts s s' a holds up small e in
    let n = num_frames_of size in
    let x = with_entry 0 (d * frame_len) (t * frame_len) x1 in
    let b = space_of size p.a p.b (d * frame_len) x in
    let r = machine_of (d * frame_len) s p.k2 x in
    let one : num_pts_of size ≡ 1 = omega arith in
    let within = inside n frames pts s d t x1 up (omega arith) d_free t_free done t_in d_in in
    let same = released n frames pts s d t x1 up (omega arith) d_free t_free done in
    let all : Takes base total fuel us calls size s b r = (
      p,
      refl,
      refl,
      refl,
      subst
          (λ m. SameCounts s.memory (
            memman_free_frame (free_frames m 0 x1.pts (free_frames n 0 x1.frames x1.memory))
              (d * frame_len / frame_len)))
          (sym one) same,
      rw (within.0, is_inside)
          (rw (subst (λ m. all_inside m 0 x1.pts x1.memory ≡ true) (sym one) within.1) within.2),
    ) in
    subst (λ q. Takes base total fuel us calls size s q s') (sym a_is)
      (subst (λ q. Takes base total fuel us calls size s b q) (sym s_is) all)

-- Where `alloc_addr_space` succeeds for up to 1023 pages, `free_addr_space` gives every frame the
-- count and the heap the used blocks that they had before.
pub free_addr_space-alloc_addr_space :
    (base total fuel : ℕ) (us : List ℕ) (size : ℕ) (frames pts : ℕ → ℕ) (s s' : Machine)
    (a : AddrSpace)
    → Holds base total fuel us 4 s.heap
    → IsUp s.memory
    → size < 1023 * frame_len
    → alloc_addr_space fuel size frames pts s ≡ some (made a s')
    → Back base total fuel us s a s'
free_addr_space-alloc_addr_space base total fuel us size frames pts s s' a holds up small e =
    let (p, heap_is, a_is, b_is, same, within) =
      there_and_back base total fuel us 0 size frames pts s s' a holds up small e in
    (
      record s' { memory = release_space a s'.memory; heap = p.k4 },
      free_addr_space_eq fuel a s' p.k3 p.k4 within (kfree_at fuel heap_is a_is p.third)
          (kfree_at fuel refl b_is p.fourth),
      same,
      p.again,
    )
