-- ===== src/Memman/Space/Outcome.antt =====
-- When `alloc_addr_space` succeeds, fails, and is lost.
use eaburns_sos.Prelude.{
  ℕ, suc, ◌+◌, ◌*◌, ◌/◌, ◌<◌, ◌≡◌, ◌⊎◌, ◌∙◌, refl, ap, arith, inl, inr, List, Option, none, some,
  [], ◌∷◌, ◌++◌, true, false, ◌==◌, ◌||◌, Bool-cases, ◌≢◌, if◌then◌else◌,
}
use eaburns_sos.Prelude.Chain.{null}
use eaburns_sos.Alloc.Kalloc.{Kalloc, kalloc, kfree}
use eaburns_sos.Alloc.Client.{Holds, Pair, both_calls, has_room, has_room_step, has_room_first}
use eaburns_sos.Memman.{frame_len, memman_use_frame}
use eaburns_sos.Memman.Paging.{word_size, clear_words}
use eaburns_sos.Memman.Space.{
  limit, is_short, user_frame, Space, AddrSpace, Machine, Build, made, refused, lost, frame_user,
  num_frames_of, num_pts_of, map_space, finish_space, share_kernel, kern_pd_offset,
  alloc_addr_space,
}
use eaburns_sos.Memman.Space.Count.{free_count, free_count-use_frame, free_count_full}
use eaburns_sos.Memman.Space.Laws.{user_cases, IsUp, map_space_outcome}

-- the blocks that an address space takes of the heap
abbrev pub space_sizes : ℕ → List ℕ
space_sizes size = (num_frames_of size * word_size) ∷ (num_pts_of size * word_size) ∷ []

-- how many frames an address space takes: its page directory, its page tables and its pages
abbrev pub frames_needed : ℕ → ℕ
frames_needed size = 1 + num_pts_of size + num_frames_of size

-- what the loops start from, once the page directory is in frame `f`
abbrev pub start : (frames pts : ℕ → ℕ) → (f : ℕ) → Machine → Build
start frames pts f s = record {
  memory = memman_use_frame s.memory f frame_user;
  words = clear_words (frame_len / word_size) (f * frame_len) s.words;
  frames = frames;
  pts = pts;
}

module _ (fuel size : ℕ) (frames pts : ℕ → ℕ) (s : Machine) (a b : ℕ) (k1 k2 : Kalloc)
    (first : kalloc fuel s.heap (num_frames_of size * word_size) ≡ some (a, k1))
    (second : kalloc fuel k1 (num_pts_of size * word_size) ≡ some (b, k2)) where
  pub alloc_addr_space-some :
      (f : ℕ)
      → user_frame s.memory ≡ (some (f * frame_len), memman_use_frame s.memory f frame_user)
      → (a == null || b == null) ≡ false
      → alloc_addr_space fuel size frames pts s
        ≡ some (
            finish_space size a b
              (f * frame_len)
              (record s { heap = k2 })
              (map_space
                (num_pts_of size)
                0
                (num_frames_of size)
                (f * frame_len)
                (start frames pts f s)))
  unfolding alloc_addr_space
  alloc_addr_space-some f e given =
      rw (first, alloc_addr_space)
        (rw second (rw (ap (λ x. x.0) e) (rw given (rw (ap (λ x. x.1) e) refl))))

  pub alloc_addr_space-null :
      (f : ℕ)
      → user_frame s.memory ≡ (some (f * frame_len), memman_use_frame s.memory f frame_user)
      → (a == null || b == null) ≡ true
      → alloc_addr_space fuel size frames pts s ≡ some lost
  unfolding alloc_addr_space
  alloc_addr_space-null f e out =
      rw (first, alloc_addr_space) (rw second (rw (ap (λ x. x.0) e) (rw out refl)))

  pub alloc_addr_space-none :
      (k3 k4 : Kalloc)
      → user_frame s.memory ≡ (none, s.memory)
      → kfree fuel k2 a ≡ some k3
      → kfree fuel k3 b ≡ some k4
      → alloc_addr_space fuel size frames pts s
        ≡ some (if is_short s.memory then lost else refused (record s { heap = k4 }))
  unfolding alloc_addr_space
  alloc_addr_space-none k3 k4 e third fourth = elim (Bool-cases (is_short s.memory)) [
    | inl short ↦ rw (first, alloc_addr_space) (rw second (rw (ap (λ x. x.0) e) (rw short refl)))
    | inr whole ↦
        rw (first, alloc_addr_space)
          (rw second
            (rw (ap (λ x. x.0) e) (rw whole (rw third (rw fourth (rw (ap (λ x. x.1) e) refl))))))
  ]

  -- With room for the two blocks neither is NULL.
  pub room_given :
      (sizes : List ℕ)
      → has_room fuel s.heap (space_sizes size ++ sizes) ≡ true
      → ((a == null || b == null) ≡ false) × (has_room fuel k2 sizes ≡ true)
  room_given sizes room =
      let (given_a, room1) =
        has_room_first fuel s.heap k1 (num_frames_of size * word_size) a
          ((num_pts_of size * word_size) ∷ sizes) first room in
      let (given_b, room2) =
        has_room_first fuel k1 k2 (num_pts_of size * word_size) b sizes second room1 in
      (rw given_a given_b, room2)

-- what the call gives where the loops end with `x`
abbrev pub space_of : (size a b pd : ℕ) → Build → AddrSpace
space_of size a b pd x = record {
  pd = pd;
  num_frames = num_frames_of size;
  frames_at = a;
  frames = x.frames;
  num_pts = num_pts_of size;
  pts_at = b;
  pts = x.pts;
}

abbrev pub machine_of : (pd : ℕ) → Machine → Kalloc → Build → Machine
machine_of pd s heap x = record s {
  memory = x.memory;
  heap = heap;
  words = share_kernel kern_pd_offset 0 pd s.kern_page_dir x.words;
}

finish_made :
    (size a b pd : ℕ) (s : Machine) (heap : Kalloc) (x : Build)
    → finish_space size a b pd (record s { heap = heap }) (some x)
      ≡ made (space_of size a b pd x) (machine_of pd s heap x)
unfolding finish_space
finish_made size a b pd s heap x = refl

finish_lost : (size a b pd : ℕ) (s : Machine) → finish_space size a b pd s none ≡ lost
unfolding finish_space
finish_lost size a b pd s = refl

-- How the call ends. The free frames are those with an entry in the block of the frame map.
abbrev pub Ends : (base total fuel : ℕ) (us : List ℕ) (size : ℕ) → Machine → Option Space → Type 0
Ends base total fuel us size s r =
    ((a : AddrSpace) × (s' : Machine) × (r ≡ some (made a s'))
      × (free_count s'.memory + frames_needed size ≡ free_count s.memory)
      × (a.frames_at ≢ null)
      × (a.pts_at ≢ null))
    ⊎ (((s' : Machine) × (r ≡ some (refused s'))
          × (free_count s.memory ≡ 0)
          × (is_short s.memory ≡ false)
          × (s'.memory ≡ s.memory)
          × Holds base total fuel us 0 s'.heap)
        ⊎ ((r ≡ some lost)
            × ((free_count s.memory < frames_needed size)
                ⊎ (has_room fuel s.heap (space_sizes size) ≡ false))))

nulls : (a b : ℕ) → (a == null || b == null) ≡ false → (a ≢ null) × (b ≢ null)
nulls a b given = elim (Bool-cases (a == null)) [
  | inl z ↦ absurd (cc (rw z at given))
  | inr some_block ↦
      (λ e. absurd (ground arith), λ e. absurd (ground (arith, rw some_block at given)))
]

-- Without one of the blocks there was no room for the two.
no_room :
    (fuel a b : ℕ) (k k1 k2 : Kalloc) (size size' : ℕ)
    → kalloc fuel k size ≡ some (a, k1)
    → kalloc fuel k1 size' ≡ some (b, k2)
    → (a == null || b == null) ≡ true
    → has_room fuel k (size ∷ size' ∷ []) ≡ false
no_room fuel a b k k1 k2 size size' e e' out =
    let step = has_room_step fuel k k1 size a (size' ∷ []) e in
    let step' = has_room_step fuel k1 k2 size' b [] e' in
    elim (Bool-cases (a == null)) [
      | inl z ↦ rw z at step
      | inr given ↦
          let z' : (b == null) ≡ true = rw given at out in (rw given at step) ∙ (rw z' at step')
    ]

-- Where the heap holds and the frame manager runs, the call makes an address space if the map's block
-- has enough free frames and the heap room for the two arrays, and takes that many frames. It fails only
-- if no frame is free and the map's block has an entry for every frame, changes no frame then and gives
-- back what it took of the heap. Otherwise it is lost: too few frames are free, or an array is NULL.
pub alloc_addr_space_lem :
    (base total fuel : ℕ) (us : List ℕ) (size : ℕ) (frames pts : ℕ → ℕ) (s : Machine)
    → Holds base total fuel us 4 s.heap
    → IsUp s.memory
    → size < 4294967296
    → Ends base total fuel us size s (alloc_addr_space fuel size frames pts s)
unfolding memman_use_frame
alloc_addr_space_lem base total fuel us size frames pts s holds up small =
    let p =
      both_calls base total fuel us 0 s.heap (num_frames_of size * word_size)
        (num_pts_of size * word_size) holds (omega arith) (omega arith) in
    elim (user_cases s.memory up) [
      | inr (e, full) ↦
          let step =
            alloc_addr_space-none fuel size frames pts s p.a p.b p.k1 p.k2 p.first p.second p.k3
              p.k4 e p.third p.fourth in
          let none_free = free_count_full s.memory full in
          elim (Bool-cases (is_short s.memory)) [
            | inl short ↦ inr (inr (step ∙ rw short refl, inl (omega (arith, none_free))))
            | inr whole ↦ inr (
                inl
                  (record s { heap = p.k4 }, step ∙ rw whole refl, none_free, whole, refl, p.again))
          ]
      | inl (f, in_map, free, e) ↦
          let less = free_count-use_frame s.memory f frame_user free in_map in
          let x0 = start frames pts f s in
          let pd = f * frame_len in
          elim (Bool-cases (p.a == null || p.b == null)) [
            | inl out ↦ inr (
                inr (
                  alloc_addr_space-null fuel size frames pts s p.a p.b p.k1 p.k2 p.first p.second f
                      e out,
                  inr (
                      no_room fuel p.a p.b s.heap p.k1 p.k2 (num_frames_of size * word_size)
                        (num_pts_of size * word_size) p.first p.second out),
                ))
            | inr given ↦
                let step =
                  alloc_addr_space-some fuel size frames pts s p.a p.b p.k1 p.k2 p.first p.second f
                    e given in
                elim (map_space_outcome (num_pts_of size) 0 (num_frames_of size) pd x0 up
                  (omega arith)) [
                    | inl (x, eq, count, up') ↦ inl (
                      space_of size p.a p.b pd x,
                      machine_of pd s p.k2 x,
                      step
                          ∙ ap
                              (λ o.
                                some (finish_space size p.a p.b pd (record s { heap = p.k2 }) o))
                              eq
                          ∙ ap some (finish_made size p.a p.b pd s p.k2 x),
                      omega (arith, less),
                      (nulls p.a p.b given).0,
                      (nulls p.a p.b given).1,
                    )
                    | inr (eq, short) ↦ inr (
                        inr (
                          step
                              ∙ ap
                                  (λ o.
                                    some
                                      (finish_space size p.a p.b pd (record s { heap = p.k2 }) o))
                                  eq
                              ∙ ap some (finish_lost size p.a p.b pd (record s { heap = p.k2 })),
                          inl (omega (arith, less)),
                        ))
                  ]
          ]
    ]

-- what a call that succeeds has done
abbrev pub Made :
    (base total fuel : ℕ) (us : List ℕ) (n size : ℕ) (frames pts : ℕ → ℕ) (s : Machine)
    → AddrSpace
    → Machine
    → Type 0
Made base total fuel us n size frames pts s a s' =
    (p : Pair base total fuel us n s.heap (num_frames_of size * word_size)
      (num_pts_of size * word_size))
    × (f : ℕ) × (x : Build) × (f < limit s.memory)
    × ((s.memory.frame_map f).count ≡ 0)
    × (map_space (num_pts_of size) 0 (num_frames_of size) (f * frame_len) (start frames pts f s)
        ≡ some x)
    × (a ≡ space_of size p.a p.b (f * frame_len) x)
    × (s' ≡ machine_of (f * frame_len) s p.k2 x)

finish_inv :
    (size a b pd : ℕ) (s s' : Machine) (heap : Kalloc) (c : AddrSpace) (o : Option Build)
    → finish_space size a b pd (record s { heap = heap }) o ≡ made c s'
    → (x : Build) × (o ≡ some x) × (c ≡ space_of size a b pd x) × (s' ≡ machine_of pd s heap x)
unfolding finish_space
finish_inv size a b pd s s' heap c none e = absurd (cc e)
finish_inv size a b pd s s' heap c (some x) e = (x, refl, cc e, cc e)

pub alloc_addr_space_inv :
    (base total fuel : ℕ) (us : List ℕ) (n size : ℕ) (frames pts : ℕ → ℕ) (s s' : Machine)
    (a : AddrSpace)
    → Holds base total fuel us (suc (suc (suc (suc n)))) s.heap
    → IsUp s.memory
    → size < 4294967296
    → alloc_addr_space fuel size frames pts s ≡ some (made a s')
    → Made base total fuel us n size frames pts s a s'
alloc_addr_space_inv base total fuel us n size frames pts s s' a holds up small e =
    let p =
      both_calls base total fuel us n s.heap (num_frames_of size * word_size)
        (num_pts_of size * word_size) holds (omega arith) (omega arith) in
    elim (user_cases s.memory up) [
      | inr (out, full) ↦
          let none_left =
            alloc_addr_space-none fuel size frames pts s p.a p.b p.k1 p.k2 p.first p.second p.k3
              p.k4 out p.third p.fourth in
          elim (Bool-cases (is_short s.memory)) [
            | inl short ↦ absurd (cc (rw short at none_left, e))
            | inr whole ↦ absurd (cc (rw whole at none_left, e))
          ]
      | inl (f, in_map, free, taken) ↦ elim (Bool-cases (p.a == null || p.b == null)) [
        | inl out ↦ absurd (
            cc (
              alloc_addr_space-null fuel size frames pts s p.a p.b p.k1 p.k2 p.first p.second f
                  taken out,
              e,
            ))
        | inr given ↦
            let step =
              alloc_addr_space-some fuel size frames pts s p.a p.b p.k1 p.k2 p.first p.second f
                taken given in
            let loops =
              map_space (num_pts_of size) 0 (num_frames_of size) (f * frame_len)
                (start frames pts f s) in
            let (x, eq, a_is, s_is) =
              finish_inv size p.a p.b (f * frame_len) s s' p.k2 a loops (cc (step, e)) in
            (p, f, x, in_map, free, eq, a_is, s_is)
      ]
    ]
