-- ===== src/Start/Laws.antt =====
-- What runs after `init_process`.
use eaburns_sos.Prelude.{
  ℕ, suc, ◌+◌, ◌<◌, ◌≤◌, ◌≡◌, ◌∙◌, refl, sym, ap, arith, inl, inr, u32, List, Option, some, [],
  ◌++◌, true, false, ◌==◌, ltb, Bool-cases,
}
use eaburns_sos.Alloc.Client.{Holds, has_room}
use eaburns_sos.Memman.Space.Laws.{IsUp}
use eaburns_sos.Memman.Space.Count.{free_count}
use eaburns_sos.Memman.Space.Outcome.{frames_needed}
use eaburns_sos.Process.{data_len}
use eaburns_sos.Process.Step.{create_process_step, process_sizes}
use eaburns_sos.Sched.{
  Sched, Process, proc_run, is_null, status_at, sched_add, arch_sched_add, schedule, scan,
  context_switch, is_run, is_wait,
}
use eaburns_sos.Sched.Slots.{free_slot_lem, sched_add-some}
use eaburns_sos.Start.{
  Kernel, Program, Started, started, static_process, tss_of, add_created, start_program,
  init_process,
}

-- The entries from 1 up to `i` run, those from `i` on are free.
abbrev pub IsFilled : (i : ℕ) → Sched → Type 0
IsFilled i s =
    ((j : ℕ) → 1 ≤ j → j < i → ((s.proctab j).status ≡ proc_run) × ((s.proctab j).pid ≡ j))
    × ((j : ℕ) → i ≤ j → j < 4 → is_null (status_at s j) ≡ true)

-- The search meets the first entry that is free.
first_free :
    (s : Sched) (i k : ℕ)
    → 1 ≤ i
    → i < 4
    → 1 ≤ k
    → k < 4
    → IsFilled i s
    → is_null (status_at s k) ≡ true
    → ((j : ℕ) → 1 ≤ j → j < k → is_null (status_at s j) ≡ false)
    → k ≡ i
first_free s i k lo hi l h (run, free) k_free before = elim (Bool-cases (ltb k i)) [
  | inl less ↦ absurd (cc (ap is_null (run k l (ground arith)).0, k_free))
  | inr more ↦ elim (Bool-cases (ltb i k)) [
    | inl less ↦ absurd (cc (before i lo (ground arith), free i (ground arith) hi))
    | inr other ↦ ground arith
  ]
]

-- Adding a process fills entry `i`.
sched_add-IsFilled :
    (tss : ℕ → ℕ) (s : Sched) (p : Process) (i : ℕ)
    → 1 ≤ i
    → i < 4
    → IsFilled i s
    → IsFilled (suc i) (sched_add tss s p).1 × ((sched_add tss s p).1.curproc ≡ s.curproc)
unfolding arch_sched_add
sched_add-IsFilled tss s p i lo hi (run, free) = elim (free_slot_lem s 3 1) [
  | inl (k, e, l, h, k_free, before) ↦
      let same : k ≡ i = first_free s i k lo hi l (omega arith) (run, free) k_free before in
      rw (sched_add-some tss s p k e) (
        rw same (
          (
            λ j a b. elim (Bool-cases (j == i)) [
              | inl here ↦ let at_i : j ≡ i = ground arith in (rw here refl, rw here (sym at_i))
              | inr there ↦
                  (rw there (run j a (ground arith)).0, rw there (run j a (ground arith)).1)
            ],
            λ j a b. elim (Bool-cases (j == i)) [
              | inl here ↦ absurd (ground arith)
              | inr there ↦ rw (there, is_null) (free j (omega arith) b)
            ],
          ),
          refl,
        ))
  | inr (e, all) ↦ absurd (cc (all i lo (omega arith), free i (omega arith) hi))
]

-- how many frames a program takes
abbrev pub frames_for : Program → ℕ
frames_for g = frames_needed (u32 (g.t_len + data_len))

-- The kernel can start programs, from entry `i` on, with `n` calls of the heap
-- and room in it for the blocks of `rest`.
abbrev pub Ready :
    (base total fuel : ℕ) → (us : List ℕ) → (n i : ℕ) → (rest : List ℕ) → Kernel → Type 0
Ready base total fuel us n i rest k =
    Holds base total fuel us n k.machine.heap
    × IsUp k.machine.memory
    × IsFilled i k.sched
    × (has_room fuel k.machine.heap rest ≡ true)

start_step :
    (base total fuel start : ℕ) (us : List ℕ) (n i : ℕ) (memory : ℕ → ℕ) (g : Program) (k : Kernel)
    (rest : List ℕ)
    → Ready base total fuel us
        (suc (suc (suc (suc (suc (suc (suc n)))))))
        i
        (process_sizes g.t_len ++ rest)
        k
    → 1 ≤ i
    → i < 4
    → frames_for g ≤ free_count k.machine.memory
    → (us' : List ℕ) × (k' : Kernel) × (start_program fuel start memory g (started k)
        ≡ some (started k'))
      × Ready base total fuel us' n (suc i) rest k'
      × (free_count k'.machine.memory + frames_for g ≡ free_count k.machine.memory)
      × (k'.sched.curproc ≡ k.sched.curproc)
unfolding start_program add_created
start_step base total fuel start us n i memory g k rest (holds, up, filled, room) lo hi enough =
    let (c, s', bytes', made_it, (us', holds', up', count, room')) =
      create_process_step base total fuel us n g.text g.t_len start g.frames g.pts g.old k.bytes
        static_process k.machine rest holds up enough room in
    let added = sched_add-IsFilled (tss_of memory c) k.sched c.process i lo hi filled in
    (
      us',
      record {
        sched = (sched_add (tss_of memory c) k.sched c.process).1;
        machine = s';
        bytes = bytes';
      },
      rw (made_it, start_program) refl,
      (holds', up', added.0, room'),
      count,
      added.1,
    )

first_scheduled :
    (s : Sched)
    → IsFilled 4 s
    → s.curproc ≡ 0
    → schedule s ≡ some (context_switch (record s { curproc = 1 }) 1)
unfolding schedule scan
first_scheduled s (run, free) idle =
    let one = (run 1 (omega arith) (omega arith)).0 in
    rw (idle, schedule, scan) (rw (one, is_run, is_wait) (rw (one, is_run) refl))

-- What `init_process` leaves: three processes that run, of which the scheduler chooses the first.
abbrev pub IsStarted : (p1 p2 p3 : Program) → Kernel → Option Started → Type 0
IsStarted p1 p2 p3 k r =
    (k' : Kernel) × (r ≡ some (started k'))
    × ((j : ℕ)
        → 1 ≤ j
        → j < 4
        → ((k'.sched.proctab j).status ≡ proc_run) × ((k'.sched.proctab j).pid ≡ j))
    × (free_count k'.machine.memory + (frames_for p1 + frames_for p2 + frames_for p3)
        ≡ free_count k.machine.memory)
    × (schedule k'.sched ≡ some (context_switch (record k'.sched { curproc = 1 }) 1))

-- From a kernel whose heap holds and has room for the blocks of the three processes, whose frame manager
-- runs with enough free frames in the block of the frame map, and whose scheduler is idle with no process,
-- `init_process` makes the three processes, which run in the entries 1 to 3, takes the frames for them,
-- and the scheduler then switches to the first.
pub init_process_lem :
    (base total fuel start : ℕ) (us : List ℕ) (memory : ℕ → ℕ) (p1 p2 p3 : Program) (k : Kernel)
    → Holds base total fuel us 21 k.machine.heap
    → IsUp k.machine.memory
    → frames_for p1 + frames_for p2 + frames_for p3 ≤ free_count k.machine.memory
    → has_room fuel k.machine.heap
        (process_sizes p1.t_len ++ (process_sizes p2.t_len ++ (process_sizes p3.t_len ++ [])))
      ≡ true
    → ((j : ℕ) → 1 ≤ j → j < 4 → is_null (status_at k.sched j) ≡ true)
    → k.sched.curproc ≡ 0
    → IsStarted p1 p2 p3 k (init_process fuel start memory p1 p2 p3 k)
unfolding init_process
init_process_lem base total fuel start us memory p1 p2 p3 k holds up enough room free idle =
    let filled : IsFilled 1 k.sched = (λ j a b. absurd (omega arith), free) in
    let (us1, k1, e1, ready1, count1, cur1) =
      start_step base total fuel start us 14 1 memory p1 k
        (process_sizes p2.t_len ++ (process_sizes p3.t_len ++ [])) (holds, up, filled, room)
        (omega arith) (omega arith) (omega arith) in
    let (us2, k2, e2, ready2, count2, cur2) =
      start_step base total fuel start us1 7 2 memory p2 k1 (process_sizes p3.t_len ++ []) ready1
        (omega arith) (omega arith) (omega arith) in
    let (us3, k3, e3, ready3, count3, cur3) =
      start_step base total fuel start us2 0 3 memory p3 k2 [] ready2 (omega arith) (omega arith)
        (omega arith) in
    (
      k3,
      rw (e1, init_process) (rw e2 e3),
      ready3.2.0,
      omega arith,
      first_scheduled k3.sched ready3.2 (cur3 ∙ cur2 ∙ cur1 ∙ idle),
    )
