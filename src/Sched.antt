-- ===== src/Sched.antt =====
-- The scheduler: kernel/sched.c, kernel/include/process.h, kernel/arch/i386/sched.c, and the system
-- calls of kernel/interrupt.c.
pub mod Laws
pub mod Slots
mod Tests
use eaburns_sos.Prelude.{
  ◌>>=◌, ℕ, zero, suc, ◌+◌, ◌-◌, ◌*◌, ◌/◌, ◌%◌, Bool, true, false, not, ◌&&◌, ◌||◌, List, [], ◌∷◌,
  Option, none, some, ◌==◌, if◌then◌else◌, ltb, ReturnCode, ret_failure, ret_success,
}
use eaburns_sos.Cpu.Descriptor.{GlobalDescriptor, set_selector, tss_selector, dpl_user}
use eaburns_sos.Cpu.Tss.{tss_size}
use eaburns_sos.Timer.{Timer, time_event_set, time_event_add}

-- `procstat_t`
pub data Status : Type 0 where
  proc_null proc_run proc_wait proc_zombie : Status

-- `process_t`; pointers are addresses
pub record Process : Type 0 where
  pub arch_info : ℕ
  pub status : Status
  pub parent : ℕ
  pub addr_space : ℕ
  pub pid : ℕ
  pub userid : ℕ
  pub groupid : ℕ
  pub next : ℕ

abbrev pub is_run : Status → Bool
is_run proc_run = true
is_run s = false

abbrev pub is_wait : Status → Bool
is_wait proc_wait = true
is_wait s = false

abbrev pub is_null : Status → Bool
is_null proc_null = true
is_null s = false

-- SCHED_MAX_PROCS
abbrev pub max_procs : ℕ
max_procs = 4

-- `proctab`, `curproc` and the global descriptor table. The code indexes `proctab` below
-- SCHED_MAX_PROCS and `gdt` below GDT_ENTRIES only.
pub record Sched : Type 0 where
  pub proctab : ℕ → Process
  pub curproc : ℕ
  pub gdt : ℕ → GlobalDescriptor

abbrev pub put : Sched → ℕ → Process → Sched
put s i p = record s { proctab = λ j. if j == i then p else s.proctab j }

abbrev pub put_gdt : Sched → ℕ → GlobalDescriptor → Sched
put_gdt s i d = record s { gdt = λ j. if j == i then d else s.gdt j }

abbrev pub status_at : Sched → ℕ → Status
status_at s i = (s.proctab i).status

abbrev pub set_status : Sched → ℕ → Status → Sched
set_status s i st = put s i (record (s.proctab i) { status = st })

-- the loop of `init_sched`
unfoldable pub clear_procs : ℕ → ℕ → Sched → Sched
clear_procs zero i s = s
clear_procs (suc n) i s = clear_procs n (i + 1) (set_status s i proc_null)

-- `init_sched`: the processes 1 to 3 are cleared and the scheduler's repeating event is added. The
-- event, the address of `schedule` and `hertz` are arguments, and the fuel is the timer's.
unfoldable pub init_sched :
    (fuel sched_event schedule_address hertz : ℕ) → Sched × Timer → Option (Sched × Timer)
unfolding clear_procs
init_sched fuel sched_event schedule_address hertz (s, t) = do
  t ← time_event_set fuel t sched_event (hertz / 10) 1 schedule_address 0
  t ← time_event_add fuel t sched_event
  some (clear_procs (max_procs - 1) 1 s, t)

-- The search of `sched_add` for an unused entry, over `n` entries from `i` on.
unfoldable pub free_slot : Sched → ℕ → ℕ → Option ℕ
free_slot s zero i = none
free_slot s (suc n) i =
    let rest = free_slot s n (i + 1) in if is_null (status_at s i) then some i else rest

-- `arch_sched_add`; `tss_of` reads the task state's address through `arch_info`.
unfoldable pub arch_sched_add : (ℕ → ℕ) → Sched → Process → Sched
arch_sched_add tss_of s p =
    put_gdt s (tss_selector / 8 + p.pid)
      (set_selector (tss_of p.arch_info) tss_size 0x9 dpl_user 1 1)

unfoldable pub sched_add : (ℕ → ℕ) → Sched → Process → ReturnCode × Sched
unfolding free_slot arch_sched_add
sched_add tss_of s p = elim (free_slot s (max_procs - 1) 1) [
  | none ↦ (ret_failure, s)
  | some i ↦
      let q = record p { status = proc_run; pid = i } in
      (ret_success, arch_sched_add tss_of (put s i q) q)
]

-- The do-while loop of `schedule`: the last entry looked at, and whether a waiting process was met.
-- The walk comes back to `last` after SCHED_MAX_PROCS rounds.
unfoldable pub scan : ℕ → Sched → (last cur : ℕ) → Bool → Option (ℕ × Bool)
scan zero s last cur waiting = none
scan (suc fuel) s last cur waiting =
    let next = (cur + 1) % max_procs in
    let waiting' = is_wait (status_at s next) || waiting in
    let rest = scan fuel s last next waiting' in
    if (not (is_run (status_at s next)) || next == 0) && not (last == next)
    then rest
    else some (next, waiting')

-- How `schedule` ends.
pub data Outcome : Type 0 where
  -- `enable(); halt(); return;`
  idle : Outcome
  -- `time_event_del( &sched_event ); … kend();`
  ended : Outcome
  -- a return with no switch
  keep : Outcome
  -- a far jump to the task of this selector
  switch : (selector : ℕ) → Outcome

-- `context_switch`: the task is marked as not busy, and its selector gets privilege level 3.
unfoldable pub context_switch : Sched → ℕ → Sched × Outcome
context_switch s to =
    let pid = (s.proctab to).pid in
    let i = tss_selector / 8 + pid in
    (put_gdt s i (record (s.gdt i) { type = 0x9 }), switch (tss_selector + pid * 8 + 3))

unfoldable pub schedule : Sched → Option (Sched × Outcome)
unfolding scan
schedule s = do
  (cur, waiting) ← scan max_procs s s.curproc s.curproc false
  let s' : Sched = record s { curproc = cur }
  if not (is_run (status_at s cur))
      then (if waiting then some (s', idle) else some (s', ended))
      else if s.curproc == cur
      then some (s', keep)
      else some (context_switch s' cur)

-- what `process_kill` gives back before it calls the scheduler
pub data Release : Type 0 where
  free_addr_space : ℕ → Release
  destroy_process : ℕ → Release

unfoldable pub process_kill : Sched → ℕ → List Release × Option (Sched × Outcome)
process_kill s pid = (
  free_addr_space (s.proctab pid).addr_space ∷ destroy_process pid ∷ [],
  schedule (set_status s pid proc_null),
)

pub data SystemCall : Type 0 where
  exit : List Release × Option (Sched × Outcome) → SystemCall
  print_hex : ℕ → SystemCall
  unknown : SystemCall

-- `interrupt_syscall`
unfoldable pub interrupt_syscall : Sched → (eax ebx : ℕ) → SystemCall
interrupt_syscall s eax ebx =
    if eax == 1
    then exit (process_kill s s.curproc)
    else if eax == 2
    then print_hex ebx
    else unknown
