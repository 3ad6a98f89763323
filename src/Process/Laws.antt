-- ===== src/Process/Laws.antt =====
-- Making a process, and the end of one.
use mathlib.Core.Path.{subst}
use eaburns_sos.Prelude.{
  ℕ, suc, ◌+◌, ◌*◌, ◌<◌, ◌≡◌, ◌∙◌, refl, sym, ap, arith, inl, inr, u32, List, Option, some, [], ◌∷◌,
  Bool, true, false, ◌==◌, ◌||◌, if◌then◌else◌, Option-cases,
}
use eaburns_sos.Prelude.Chain.{null}
use eaburns_sos.Alloc.Kalloc.{Kalloc, kfree, kfree_at}
use eaburns_sos.Alloc.Client.{Holds, grown, kalloc_step, has_room, has_room_step}
use eaburns_sos.Alloc.Client.Order.{FreshThrice, grown_thrice, five_back}
use eaburns_sos.Cpu.Tss.{Tss}
use eaburns_sos.Memman.{frame_len}
use eaburns_sos.Memman.Space.{
  AddrSpace, Machine, Space, made, refused, lost, alloc_addr_space, free_addr_space, release_space,
  is_inside,
}
use eaburns_sos.Memman.Space.Laws.{IsUp}
use eaburns_sos.Memman.Space.Balance.{count_of, SameCounts}
use eaburns_sos.Memman.Space.Result.{there_and_back, free_addr_space_eq}
use eaburns_sos.Process.{
  Created, Creation, created, failed, never, fill_tss, fill_process, copy_pages, create_process,
  destroy_process, data_len, addr_space_size, proc_info_size, tss_t_size,
}
use eaburns_sos.Sched.{Process}

-- what a call of `fill_process` that makes `c` has done
abbrev pub Filled :
    (base total fuel : ℕ) (us : List ℕ) (n text t_len start : ℕ)
    → Tss
    → (bytes : ℕ → ℕ) → Process
    → AddrSpace
    → Machine
    → Created
    → Machine
    → (bytes' : ℕ → ℕ) → Type 0
Filled base total fuel us n text t_len start old bytes p a s c s' bytes' =
    (space_at : ℕ) × (info_at : ℕ) × (h : Kalloc) × (c.process
      ≡ record p { addr_space = space_at; arch_info = info_at })
    × (c.space ≡ a)
    × (c.tss ≡ fill_tss old t_len start a.pd)
    × (s' ≡ record s { heap = h })
    × (bytes' ≡ copy_pages a.num_frames 0 t_len text a.frames bytes)
    × FreshThrice space_at info_at c.tss_at us
    × Holds base total fuel (grown_thrice space_at info_at c.tss_at us) n h

some_created :
    (out : Bool) (c c' : Created) (s s' : Machine) (b b' : ℕ → ℕ)
    → ◌≡◌ {A = Option Creation}
        (if out then some never else some (created c s b))
        (some (created c' s' b'))
    → (c ≡ c') × (s ≡ s') × (b ≡ b')
some_created true c c' s s' b b' e = absurd (cc e)
some_created false c c' s s' b b' e = (cc e, cc e, cc e)

any_of :
    (x y z r : Bool)
    → (if x then false else (if y then false else (if z then false else r)))
      ≡ (if x || y || z then false else r)
any_of true y z r = refl
any_of false true z r = refl
any_of false false true r = refl
any_of false false false r = refl

module _ (base total fuel text t_len start : ℕ) (old : Tss) (bytes : ℕ → ℕ) (p : Process) where
  -- With a heap that holds, the rest of `create_process` makes a process, unless `out`: a block is NULL,
  -- and there is no room for the three, before the blocks of `rest`.
  pub fill_process_lem :
      (us : List ℕ) (n : ℕ) (a : AddrSpace) (s : Machine) (rest : List ℕ)
      → Holds base total fuel us (suc (suc (suc n))) s.heap
      → (c : Created) × (s' : Machine) × (bytes' : ℕ → ℕ) × (out : Bool) × (fill_process fuel text
            t_len start old bytes p a s
          ≡ (if out then some never else some (created c s' bytes')))
        × Filled base total fuel us n text t_len start old bytes p a s c s' bytes'
        × (has_room fuel s.heap (addr_space_size ∷ proc_info_size ∷ tss_t_size ∷ rest)
            ≡ (if out then false else has_room fuel s'.heap rest))
  unfolding fill_process
  fill_process_lem us n a s rest holds =
      let (space_at, h1, e1, holds1, fresh1) =
        kalloc_step base total fuel us (suc (suc n)) s.heap addr_space_size holds (omega arith) in
      let (info_at, h2, e2, holds2, fresh2) =
        kalloc_step base total fuel (grown space_at us) (suc n) h1 proc_info_size holds1
          (omega arith) in
      let (tss_at, h3, e3, holds3, fresh3) =
        kalloc_step base total fuel (grown info_at (grown space_at us)) n h2 tss_t_size holds2
          (omega arith) in
      let room1 =
        has_room_step fuel s.heap h1 addr_space_size space_at (proc_info_size ∷ tss_t_size ∷ rest)
          e1 in
      let room2 = has_room_step fuel h1 h2 proc_info_size info_at (tss_t_size ∷ rest) e2 in
      let room3 = has_room_step fuel h2 h3 tss_t_size tss_at rest e3 in
      (
        record {
          process = record p { addr_space = space_at; arch_info = info_at };
          space = a;
          tss_at = tss_at;
          tss = fill_tss old t_len start a.pd;
        },
        record s { heap = h3 },
        copy_pages a.num_frames 0 t_len text a.frames bytes,
        (space_at == null || info_at == null || tss_at == null),
        rw (e1, fill_process) (rw e2 (rw e3 refl)),
        (space_at, info_at, h3, refl, refl, refl, refl, refl, (fresh1, fresh2, fresh3), holds3),
        room1
            ∙ ap (λ r. if space_at == null then false else r)
                (room2 ∙ ap (λ r. if info_at == null then false else r) room3)
            ∙ any_of (space_at == null) (info_at == null) (tss_at == null) (has_room fuel h3 rest),
      )

  -- what `create_process` does with an address space
  continue_with : Space → Option Creation
  continue_with r = elim r [
    | refused s' ↦ some (failed s')
    | lost ↦ some never
    | made a s' ↦ fill_process fuel text t_len start old bytes p a s'
  ]

  continue_inv :
      (r : Space) (c : Created) (s' : Machine) (bytes' : ℕ → ℕ)
      → continue_with r ≡ some (created c s' bytes')
      → (a : AddrSpace) × (s1 : Machine) × (r ≡ made a s1)
        × (fill_process fuel text t_len start old bytes p a s1 ≡ some (created c s' bytes'))
  unfolding continue_with
  continue_inv (refused x) c s' bytes' e = absurd (cc e)
  continue_inv lost c s' bytes' e = absurd (cc e)
  continue_inv (made a s1) c s' bytes' e = (a, s1, refl, e)

  pub create_process_inv :
      (frames pts : ℕ → ℕ) (s s' : Machine) (c : Created) (bytes' : ℕ → ℕ)
      → create_process fuel text t_len start frames pts old bytes p s ≡ some (created c s' bytes')
      → (a : AddrSpace) × (s1 : Machine) × (alloc_addr_space fuel
            (u32 (t_len + data_len))
            frames
            pts
            s
          ≡ some (made a s1))
        × (fill_process fuel text t_len start old bytes p a s1 ≡ some (created c s' bytes'))
  unfolding create_process continue_with
  create_process_inv frames pts s s' c bytes' e =
      let size = u32 (t_len + data_len) in
      elim (Option-cases (alloc_addr_space fuel size frames pts s)) [
        | inl out ↦ absurd (cc (rw (out, create_process) at e))
        | inr (r, made_it) ↦
            let (a, s1, r_is, rest) =
              continue_inv r c s' bytes' (rw (made_it, create_process) at e) in
            (a, s1, made_it ∙ ap some r_is, rest)
      ]

-- What a process has is given back: the memory side of `process_kill`.
abbrev pub IsGone :
    (base total fuel : ℕ) (us : List ℕ) (s : Machine) → Created → (s' : Machine) → Type 0
IsGone base total fuel us s c s' =
    (s2 : Machine) × (k : Kalloc) × (free_addr_space fuel c.space s' ≡ some s2)
    × (destroy_process fuel c s2.heap ≡ some k)
    × SameCounts s.memory s2.memory
    × Holds base total fuel us 0 k

destroy_process_eq :
    (fuel : ℕ) (c : Created) (k k1 k2 k3 : Kalloc)
    → kfree fuel k c.tss_at ≡ some k1
    → kfree fuel k1 c.process.arch_info ≡ some k2
    → kfree fuel k2 c.process.addr_space ≡ some k3
    → destroy_process fuel c k ≡ some k3
unfolding destroy_process
destroy_process_eq fuel c k k1 k2 k3 e1 e2 e3 = rw (e1, destroy_process) (rw e2 (rw e3 refl))

module _ (base total fuel text t_len start : ℕ) (old : Tss) (bytes : ℕ → ℕ) (p : Process) where
  -- what the rest of `create_process` has done, where it made `c`
  pub filled :
      (us : List ℕ) (n : ℕ) (a : AddrSpace) (s s' : Machine) (c : Created) (bytes' : ℕ → ℕ)
      → Holds base total fuel us (suc (suc (suc n))) s.heap
      → fill_process fuel text t_len start old bytes p a s ≡ some (created c s' bytes')
      → Filled base total fuel us n text t_len start old bytes p a s c s' bytes'
  filled us n a s s' c bytes' holds e =
      let (c1, s1, b1, out, eq, done, room) =
        fill_process_lem base total fuel text t_len start old bytes p us n a s [] holds in
      let (c_is, s_is, b_is) = some_created out c1 c s1 s' b1 bytes' (sym eq ∙ e) in
      let step =
        subst (λ x. Filled base total fuel us n text t_len start old bytes p a s x s1 b1) c_is
          done in
      let step' =
        subst (λ x. Filled base total fuel us n text t_len start old bytes p a s c x b1) s_is
          step in
      subst (λ x. Filled base total fuel us n text t_len start old bytes p a s c s' x) b_is step'

  -- Where `create_process` makes a process of up to 1023 pages, `free_addr_space` and then
  -- `destroy_process`, in the order of `process_kill`, give every frame the count and the heap the
  -- used blocks that they had before.
  pub destroy_process-create_process :
      (us : List ℕ) (frames pts : ℕ → ℕ) (s s' : Machine) (c : Created) (bytes' : ℕ → ℕ)
      → Holds base total fuel us 10 s.heap
      → IsUp s.memory
      → t_len + data_len < 1023 * frame_len
      → create_process fuel text t_len start frames pts old bytes p s ≡ some (created c s' bytes')
      → IsGone base total fuel us s c s'
  destroy_process-create_process us frames pts s s' c bytes' holds up small e =
      let (a, s1, made_it, rest) =
        create_process_inv base total fuel text t_len start old bytes p frames pts s s' c bytes'
          e in
      let size = u32 (t_len + data_len) in
      let (q, heap_is, a_is, b_is, same, within) =
        there_and_back base total fuel us 6 size frames pts s s1 a holds up (omega arith) made_it in
      let us2 = grown q.b (grown q.a us) in
      let holds2 : Holds base total fuel us2 8 s1.heap = rw heap_is q.holds in
      let (space_at, info_at, h, process_is, space_is, tss_is, s_is, bytes_is, fresh, holds3) =
        filled us2 5 a s1 s' c bytes' holds2 rest in
      let (k1, k2, k3, k4, k5, e1, e2, e3, e4, e5, again) =
        five_back base total fuel us h q.a q.b space_at info_at c.tss_at q.fresh_a q.fresh_b fresh
          holds3 in
      let heap' : s'.heap ≡ h = ap (λ x. x.heap) s_is in
      let frames_at : c.space.frames_at ≡ q.a = ap (λ x. x.frames_at) space_is ∙ a_is in
      let within' : is_inside c.space s'.memory ≡ true =
        ap (λ x. is_inside x s'.memory) space_is ∙ ap (λ x. is_inside a x.memory) s_is ∙ within in
      let pts_at : c.space.pts_at ≡ q.b = ap (λ x. x.pts_at) space_is ∙ b_is in
      (
        record s' { memory = release_space c.space s'.memory; heap = k2 },
        k5,
        free_addr_space_eq fuel c.space s' k1 k2 within' (kfree_at fuel heap' frames_at e1)
            (kfree_at fuel refl pts_at e2),
        destroy_process_eq fuel c k2 k3 k4 k5 e3
            (kfree_at fuel refl (ap (λ x. x.arch_info) process_is) e4)
            (kfree_at fuel refl (ap (λ x. x.addr_space) process_is) e5),
        (λ g.
            ap (λ x. count_of (release_space x s'.memory) g) space_is
            ∙ ap (λ x. count_of (release_space a x.memory) g) s_is
            ∙ same g),
        again,
      )
