-- ===== src/Sched/Tests.antt =====
-- The scheduler with two processes that can run and one that waits.
use eaburns_sos.Prelude.{
  ℕ, ◌+◌, ◌*◌, ◌≤◌, ◌<◌, ◌≡◌, ◌≢◌, ◌⊎◌, refl, arith, true, false, some, ◌==◌, if◌then◌else◌, ◌||◌,
  ret_success, ret_failure,
}
use eaburns_sos.Cpu.Descriptor.Laws.{segment_base}
use eaburns_sos.Cpu.Descriptor.{GlobalDescriptor}
use eaburns_sos.Sched.{
  Sched, Process, Status, proc_null, proc_run, proc_wait, is_run, is_null, status_at, schedule,
  Outcome, idle, ended, keep, switch, process_kill, sched_add,
}
use eaburns_sos.Sched.Laws.{schedule_runs, schedule_stops, process_kill_lem, steps, task_of}
use eaburns_sos.Sched.Slots.{sched_add_lem}

abbrev process : Status → ℕ → Process
process st n = record {
  arch_info = 4096 * n;
  status = st;
  parent = 0;
  addr_space = 0;
  pid = n;
  userid = 0;
  groupid = 0;
  next = 0;
}

abbrev no_descriptor : GlobalDescriptor
no_descriptor = record {
  limit_low = 0;
  base_low = 0;
  type = 0;
  dpl = 0;
  p = 0;
  limit_high = 0;
  avl = 0;
  zero = 0;
  opsize = 0;
  granularity = 0;
  base_high = 0;
}

-- Process 1 runs, 2 can run, 3 is an unused entry.
abbrev two_running : Sched
two_running = record {
  proctab = λ i. process (if i == 1 || i == 2 then proc_run else proc_null) i;
  curproc = 1;
  gdt = λ i. no_descriptor;
}

-- Process 1 waits, and no other one is there.
abbrev one_waiting : Sched
one_waiting = record {
  proctab = λ i. process (if i == 1 then proc_wait else proc_null) i;
  curproc = 1;
  gdt = λ i. no_descriptor;
}

runs_example :
    (s' : Sched) × (o : Outcome) × (schedule two_running ≡ some (s', o))
    × (s'.curproc < 4)
    × (s'.curproc ≢ 0)
    × (is_run (status_at two_running s'.curproc) ≡ true)
    × (steps 1 s'.curproc ≤ steps 1 2)
    × (o ≡ (if 1 == s'.curproc then keep else switch (task_of two_running s'.curproc)))
runs_example =
    schedule_runs two_running 2 (omega arith) (omega arith) (λ e. absurd (omega (arith, e))) refl

none_runs : (i : ℕ) → i < 4 → is_run (status_at one_waiting i) ≡ false
none_runs i h = ground arith

stops_example : schedule one_waiting ≡ some (one_waiting, idle)
stops_example = schedule_stops one_waiting (omega arith) none_runs

kill_example :
    (s' : Sched) × (o : Outcome) × ((process_kill two_running 1).1 ≡ some (s', o))
    × (o ≢ keep)
    × (status_at s' 1 ≡ proc_null)
    × ((s'.curproc ≢ 1) ⊎ (((o ≡ idle) ⊎ (o ≡ ended)) × (s'.curproc ≡ 1)))
kill_example = process_kill_lem two_running (omega arith)

add_process_example :
    let (code, s') = sched_add (λ a. a + 8) two_running (process proc_null 9) in
    ((k : ℕ) × (code ≡ ret_success)
      × (1 ≤ k)
      × (k < 4)
      × (is_null (status_at two_running k) ≡ true)
      × (s'.proctab 2 ≡ (
          if 2 == k
          then record (process proc_null 9) { status = proc_run; pid = k }
          else two_running.proctab 2))
      × (segment_base (s'.gdt (5 + k)) ≡ 36872))
    ⊎ ((code ≡ ret_failure) × (s' ≡ two_running) × (is_null (status_at two_running 2) ≡ false))
add_process_example =
    sched_add_lem (λ a. a + 8) two_running (process proc_null 9) 2 (omega arith) (omega arith)
      (omega arith)
