-- ===== src/Process/Step.antt =====
-- One call of `create_process` among others: what it needs again is there after it.
use mathlib.Core.Path.{subst}
use eaburns_sos.Prelude.{
  refl, ℕ, suc, ◌+◌, ◌*◌, ◌<◌, ◌≤◌, ◌≡◌, ◌∙◌, sym, ap, arith, inl, inr, u32, List, some, [], ◌∷◌,
  ◌++◌, Bool, true, false, if◌then◌else◌,
}
use eaburns_sos.Alloc.Client.{Holds, grown, has_room, has_room_some}
use eaburns_sos.Alloc.Client.Order.{grown_thrice}
use eaburns_sos.Cpu.Tss.{Tss}
use eaburns_sos.Memman.{frame_len, memman_use_frame}
use eaburns_sos.Memman.Space.{
  AddrSpace, Build, Machine, made, alloc_addr_space, num_frames_of, num_pts_of,
}
use eaburns_sos.Memman.Space.Laws.{IsUp, map_space_outcome}
use eaburns_sos.Memman.Space.Count.{free_count}
use eaburns_sos.Memman.Space.Outcome.{
  frames_needed, space_sizes, room_given, alloc_addr_space_lem, alloc_addr_space_inv,
  start as first_build,
}
use eaburns_sos.Process.{
  Created, created, never, create_process, data_len, addr_space_size, proc_info_size, tss_t_size,
}
use eaburns_sos.Process.Laws.{fill_process_lem}
use eaburns_sos.Sched.{Process}

-- After an address space was made, the frame manager still runs, and the heap holds for `n` more calls
-- and has room for the blocks of `rest`.
abbrev SpaceStep :
    (base total fuel : ℕ) (us : List ℕ) (n size : ℕ) (rest : List ℕ) → Machine → Machine → Type 0
SpaceStep base total fuel us n size rest s s' =
    (us' : List ℕ) × Holds base total fuel us' n s'.heap
    × IsUp s'.memory
    × (free_count s'.memory + frames_needed size ≡ free_count s.memory)
    × (has_room fuel s'.heap rest ≡ true)

space_step :
    (base total fuel : ℕ) (us : List ℕ) (n size : ℕ) (frames pts : ℕ → ℕ) (s s' : Machine)
    (a : AddrSpace) (rest : List ℕ)
    → Holds base total fuel us (suc (suc (suc (suc n)))) s.heap
    → IsUp s.memory
    → size < 4294967296
    → alloc_addr_space fuel size frames pts s ≡ some (made a s')
    → free_count s'.memory + frames_needed size ≡ free_count s.memory
    → has_room fuel s.heap (space_sizes size ++ rest) ≡ true
    → SpaceStep base total fuel us (suc (suc n)) size rest s s'
unfolding memman_use_frame
space_step base total fuel us n size frames pts s s' a rest holds up small e count room =
    let (q, f, x, in_map, free, loops, a_is, s_is) =
      alloc_addr_space_inv base total fuel us n size frames pts s s' a holds up small e in
    let same : (y : Build) → some y ≡ some x → y ≡ x = λ y h. cc h in
    let up' : IsUp x.memory =
      elim (map_space_outcome (num_pts_of size) 0 (num_frames_of size) (f * frame_len)
        (first_build frames pts f s) up (omega arith)) [
          | inl (x', eq, counted, up') ↦ subst (λ y. IsUp y.memory) (same x' (sym eq ∙ loops)) up'
          | inr (eq, short) ↦ absurd (cc (eq, loops))
        ] in
    (
      grown q.b (grown q.a us),
      subst (λ k. Holds base total fuel (grown q.b (grown q.a us)) (suc (suc n)) k)
          (sym (ap (λ k. k.heap) s_is)) q.holds,
      subst (λ m. IsUp m) (sym (ap (λ k. k.memory) s_is)) up',
      count,
      ap (λ k. has_room fuel k.heap rest) s_is
          ∙ (room_given fuel size frames pts s q.a q.b q.k1 q.k2 q.first q.second rest room).1,
    )

given : (out r : Bool) → (if out then false else r) ≡ true → (out ≡ false) × (r ≡ true)
given true r e = absurd (cc e)
given false r e = (refl, e)

-- The blocks that `create_process` takes of the heap.
abbrev pub process_sizes : (t_len : ℕ) → List ℕ
process_sizes t_len =
    space_sizes (u32 (t_len + data_len)) ++ (addr_space_size ∷ proc_info_size ∷ tss_t_size ∷ [])

-- Where the heap holds for 7 more calls than it is to hold after it and has room for the blocks, and
-- there are enough free frames, `create_process` makes a process.
pub create_process_step :
    (base total fuel : ℕ) (us : List ℕ) (n text t_len start : ℕ) (frames pts : ℕ → ℕ) (old : Tss)
    (bytes : ℕ → ℕ) (p : Process) (s : Machine) (rest : List ℕ)
    → Holds base total fuel us (suc (suc (suc (suc (suc (suc (suc n))))))) s.heap
    → IsUp s.memory
    → frames_needed (u32 (t_len + data_len)) ≤ free_count s.memory
    → has_room fuel s.heap (process_sizes t_len ++ rest) ≡ true
    → (c : Created) × (s' : Machine) × (bytes' : ℕ → ℕ) × (create_process fuel text t_len start
          frames pts old bytes p s
        ≡ some (created c s' bytes'))
      × SpaceStep base total fuel us n (u32 (t_len + data_len)) rest s s'
unfolding create_process
create_process_step base total fuel us n text t_len start frames pts old bytes p s rest holds up
      enough room =
    let size = u32 (t_len + data_len) in
    let (fs, heap, on, ef, eu) = holds in
    let holds4 : Holds base total fuel us 4 s.heap = (fs, heap, on, omega arith, omega arith) in
    elim (alloc_addr_space_lem base total fuel us size frames pts s holds4 up (omega arith)) [
      | inl (a, s1, eq, count, given_a, given_b) ↦
          let blocks = addr_space_size ∷ proc_info_size ∷ tss_t_size ∷ rest in
          let (us2, holds2, up2, count2, room2) =
            space_step base total fuel us (suc (suc (suc n))) size frames pts s s1 a blocks holds up
              (omega arith) eq count room in
          let (c, s', bytes', out, made_it, done, room3) =
            fill_process_lem base total fuel text t_len start old bytes p us2 (suc (suc n)) a s1
              rest holds2 in
          let (whole, room') = given out (has_room fuel s'.heap rest) (sym room3 ∙ room2) in
          let (space_at, info_at, h, p_is, space_is, tss_is, s_is, bytes_is, fresh, holds3) =
            done in
          let (fs3, heap3, on3, ef3, eu3) = holds3 in
          (
            c,
            s',
            bytes',
            rw (eq, create_process)
                (made_it ∙ ap (λ x. if x then some never else some (created c s' bytes')) whole),
            (
              grown_thrice space_at info_at c.tss_at us2,
              subst (λ k. Holds base total fuel (grown_thrice space_at info_at c.tss_at us2) n k)
                  (sym (ap (λ k. k.heap) s_is)) (fs3, heap3, on3, omega arith, omega arith),
              subst (λ m. IsUp m) (sym (ap (λ k. k.memory) s_is)) up2,
              ap (λ k. free_count k.memory + frames_needed size) s_is ∙ count,
              room',
            ),
          )
      | inr (inl (s', eq, none_free, whole, same, again)) ↦
          absurd (omega (arith, none_free, enough))
      | inr (inr (eq, inl short)) ↦ absurd (omega (arith, enough, short))
      | inr (inr (eq, inr no_room)) ↦
          absurd (cc (no_room, has_room_some fuel s.heap (space_sizes size) _ room))
    ]
