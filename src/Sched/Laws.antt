-- ===== src/Sched/Laws.antt =====
-- Whom the scheduler chooses.
use eaburns_sos.Prelude.{
  ℕ, zero, suc, ◌+◌, ◌-◌, ◌*◌, ◌%◌, ◌<◌, ◌≤◌, ◌≡◌, ◌≢◌, ◌∙◌, refl, Bool, true, false, not, ◌&&◌,
  ◌||◌, arith, some, ◌==◌, if◌then◌else◌, Bool-cases, inl, inr, ◌⊎◌,
}
use eaburns_sos.Sched.{
  Sched, proc_null, is_run, is_wait, status_at, scan, schedule, Outcome, idle, ended, keep, switch,
  context_switch, process_kill, set_status,
}

-- how many steps round the table lead from `c` to `i`, from 1 to 4
abbrev pub steps : ℕ → ℕ → ℕ
steps c i = (i + 3 - c) % 4 + 1

runs : Sched → ℕ → Bool
runs s i = is_run (status_at s i)

waits : Sched → ℕ → Bool
waits s i = is_wait (status_at s i)

-- where the loop of `schedule` stops, from `c`
chosen : Sched → ℕ → ℕ → ℕ
chosen s c zero = c
chosen s c (suc n) =
    let i = (c + 4 - n) % 4 in
    let rest = chosen s c n in if runs s i && not (i == 0) then i else rest

-- the waiting processes that it passes
waited : Sched → ℕ → ℕ → Bool → Bool
waited s c zero w = w
waited s c (suc n) w =
    let i = (c + 4 - n) % 4 in
    let w' = waits s i || w in
    let rest = waited s c n w' in if runs s i && not (i == 0) then w' else rest

scan_lem :
    (s : Sched) (c : ℕ) → c < 4 → scan 4 s c c false ≡ some (chosen s c 4, waited s c 4 false)
unfolding scan chosen waited runs waits
scan_lem s zero h = ground arith
scan_lem s (suc zero) h = ground arith
scan_lem s (suc (suc zero)) h = ground arith
scan_lem s (suc (suc (suc zero))) h = ground arith
scan_lem s (suc (suc (suc (suc c)))) h = absurd (omega arith)

-- The loop stops no later than at a runnable process that it would come to.
chosen_first :
    (s : Sched) (c n m : ℕ)
    → c < 4
    → n ≤ 4
    → m < n
    → runs s ((c + 4 - m) % 4) ≡ true
    → (c + 4 - m) % 4 ≢ 0
    → let i = chosen s c n in (i < 4) × (i ≢ 0) × (runs s i ≡ true) × (steps c i + m ≤ 4)
unfolding chosen
chosen_first s c zero m hc hn hm r ne = absurd (omega arith)
chosen_first s c (suc n) m hc hn hm r ne =
    let i = (c + 4 - n) % 4 in
    elim (Bool-cases (runs s i && not (i == 0))) [
      | inl found ↦ rw found (omega arith, ground arith, ground arith, omega arith)
      | inr past ↦ rw past (chosen_first s c n m hc (omega arith) (ground arith) r ne)
    ]

-- The entry that is chosen runs, or is the current one.
chosen_cases : (s : Sched) (c n : ℕ) → (runs s (chosen s c n) ≡ true) ⊎ (chosen s c n ≡ c)
unfolding chosen
chosen_cases s c zero = inr refl
chosen_cases s c (suc n) =
    elim (Bool-cases (runs s ((c + 4 - n) % 4) && not ((c + 4 - n) % 4 == 0))) [
      | inl here ↦ inl (rw here (ground (arith, here)))
      | inr past ↦ rw past (chosen_cases s c n)
    ]

chosen_none :
    (s : Sched) (c n : ℕ)
    → c < 4
    → n ≤ 4
    → ((i : ℕ) → i < 4 → i ≢ 0 → runs s i ≡ false)
    → chosen s c n ≡ c
unfolding chosen
chosen_none s c zero hc hn none_runs = refl
chosen_none s c (suc n) hc hn none_runs =
    ground (arith, none_runs ((c + 4 - n) % 4), chosen_none s c n hc (omega arith) none_runs)

waited_all :
    (s : Sched) (c : ℕ)
    → c < 4
    → ((i : ℕ) → i < 4 → i ≢ 0 → runs s i ≡ false)
    → waited s c 4 false ≡ (waits s 0 || waits s 1 || waits s 2 || waits s 3)
unfolding waited
waited_all s zero h none_runs = ground (arith, none_runs 1, none_runs 2, none_runs 3)
waited_all s (suc zero) h none_runs = ground (arith, none_runs 1, none_runs 2, none_runs 3)
waited_all s (suc (suc zero)) h none_runs = ground (arith, none_runs 1, none_runs 2, none_runs 3)
waited_all s (suc (suc (suc zero))) h none_runs =
    ground (arith, none_runs 1, none_runs 2, none_runs 3)
waited_all s (suc (suc (suc (suc c)))) h none_runs = absurd (omega arith)

schedule_eq :
    (s : Sched)
    → s.curproc < 4
    → let n = chosen s s.curproc 4 in
      let s' : Sched = record s { curproc = n } in
      schedule s ≡ (
        if not (runs s n)
        then (if waited s s.curproc 4 false then some (s', idle) else some (s', ended))
        else if s.curproc == n
        then some (s', keep)
        else some (context_switch s' n))
unfolding schedule runs
schedule_eq s h = rw (scan_lem s s.curproc h)

-- the selector of a process's task
abbrev pub task_of : Sched → ℕ → ℕ
task_of s i = 43 + (s.proctab i).pid * 8

-- Round robin: while some process `j` but the idle entry 0 can run, `schedule` chooses a process
-- that can run and that comes no later than `j` after the current one, and switches to its task
-- unless it is the current one.
pub schedule_runs :
    (s : Sched) (j : ℕ)
    → s.curproc < 4
    → j < 4
    → j ≢ 0
    → is_run (status_at s j) ≡ true
    → (s' : Sched) × (o : Outcome) × (schedule s ≡ some (s', o))
      × (s'.curproc < 4)
      × (s'.curproc ≢ 0)
      × (is_run (status_at s s'.curproc) ≡ true)
      × (steps s.curproc s'.curproc ≤ steps s.curproc j)
      × (o ≡ (if s.curproc == s'.curproc then keep else switch (task_of s s'.curproc)))
unfolding runs context_switch
schedule_runs s j hc hj ne r =
    let c = s.curproc in
    let m = 4 - steps c j in
    let at_j : (c + 4 - m) % 4 ≡ j = omega arith in
    let (lt, nz, run, near) =
      chosen_first s c 4 m hc (omega arith) (omega arith) (rw at_j r) (rw at_j ne) in
    let n = chosen s c 4 in
    elim (Bool-cases (c == n)) [
      | inl same ↦ (
        record s { curproc = n },
        keep,
        schedule_eq s hc ∙ rw (run, same),
        lt,
        nz,
        run,
        omega arith,
        rw same,
      )
      | inr other ↦ (
        (context_switch (record s { curproc = n }) n).0,
        switch (task_of s n),
        schedule_eq s hc ∙ ground arith,
        lt,
        nz,
        run,
        omega arith,
        rw other,
      )
    ]

-- With no process to run, `schedule` waits for an interrupt if some process waits for one, and shuts
-- the system down if not.
pub schedule_stops :
    (s : Sched)
    → s.curproc < 4
    → ((i : ℕ) → i < 4 → is_run (status_at s i) ≡ false)
    → schedule s
      ≡ some (
        s,
        if is_wait (status_at s 0)
              || is_wait (status_at s 1)
              || is_wait (status_at s 2)
              || is_wait (status_at s 3)
            then idle
            else ended,
      )
unfolding runs waits
schedule_stops s hc none_runs =
    let c = s.curproc in
    let same = chosen_none s c 4 hc (omega arith) (λ i h ne. none_runs i h) in
    schedule_eq s hc
    ∙ rw same
        (rw (none_runs c hc) (rw (waited_all s c hc (λ i h ne. none_runs i h)) (ground arith)))

dead_ne : (s : Sched) (c n : ℕ) → status_at s c ≡ proc_null → runs s n ≡ true → (c == n) ≡ false
unfolding runs
dead_ne s c n dead run = ground arith

switch-ne-keep : (s : Sched) (n : ℕ) → (context_switch s n).1 ≢ keep
unfolding context_switch
switch-ne-keep s n e = cc

-- A process that is killed while it is the current one: its entry is free, and the scheduler has chosen
-- another process, or, with the killed one still the current one, waits for an interrupt and then
-- returns, or shuts down. It never returns at once as if the process were still the one to run.
pub process_kill_lem :
    (s : Sched)
    → s.curproc < 4
    → (s' : Sched) × (o : Outcome) × ((process_kill s s.curproc).1 ≡ some (s', o))
      × (o ≢ keep)
      × (status_at s' s.curproc ≡ proc_null)
      × ((s'.curproc ≢ s.curproc) ⊎ (((o ≡ idle) ⊎ (o ≡ ended)) × (s'.curproc ≡ s.curproc)))
unfolding process_kill context_switch
process_kill_lem s hc =
    let s1 = set_status s s.curproc proc_null in
    let n = chosen s1 s.curproc 4 in
    let dead : status_at s1 s.curproc ≡ proc_null = ground arith in
    let s' : Sched = record s1 { curproc = n } in
    let stays : runs s1 n ≡ false → n ≡ s.curproc = λ stop. elim (chosen_cases s1 s.curproc 4) [
      | inl run ↦ absurd (cc (run, stop))
      | inr same ↦ same
    ] in
    elim (Bool-cases (runs s1 n)) [
      | inr stop ↦ elim (Bool-cases (waited s1 s.curproc 4 false)) [
        | inl w ↦ (
          s',
          idle,
          schedule_eq s1 hc ∙ rw (stop, w),
          (λ e. cc),
          dead,
          inr (inl refl, stays stop),
        )
        | inr w ↦ (
          s',
          ended,
          schedule_eq s1 hc ∙ rw (stop, w),
          (λ e. cc),
          dead,
          inr (inr refl, stays stop),
        )
      ]
      | inl run ↦
          let moved : (s.curproc == n) ≡ false = dead_ne s1 s.curproc n dead run in
          (
            (context_switch s' n).0,
            (context_switch s' n).1,
            schedule_eq s1 hc ∙ rw (run, moved),
            switch-ne-keep s' n,
            dead,
            inl (ground arith),
          )
    ]
