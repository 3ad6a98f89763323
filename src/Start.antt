-- ===== src/Start.antt =====
-- The first processes: `init_process` of kernel/kmain.c. The three static structs start as zeros, and the
-- result of `create_process` is not looked at: a process that was not made is added all the same.
pub mod Init
pub mod Laws
mod Tests
use eaburns_sos.Prelude.{ℕ, Option, some, ◌==◌, if◌then◌else◌, ◌>>=◌}
use eaburns_sos.Cpu.Tss.{Tss}
use eaburns_sos.Memman.Space.{Machine}
use eaburns_sos.Process.{Created, Creation, created, failed, never, create_process}
use eaburns_sos.Sched.{Sched, Process, proc_null, sched_add}

-- `static process_t`: zeros
abbrev pub static_process : Process
static_process = record {
  arch_info = 0;
  status = proc_null;
  parent = 0;
  addr_space = 0;
  pid = 0;
  userid = 0;
  groupid = 0;
  next = 0;
}

-- what the calls work on: the scheduler, memory and heap, and the bytes of memory
pub record Kernel : Type 0 where
  pub sched : Sched
  pub machine : Machine
  pub bytes : ℕ → ℕ

-- A program of kernel/test_code.S: where its text is and how long, and what the heap blocks that its
-- process gets hold.
pub record Program : Type 0 where
  pub text : ℕ
  pub t_len : ℕ
  pub frames : ℕ → ℕ
  pub pts : ℕ → ℕ
  pub old : Tss

-- the kernel after a call, or a call after which nothing can be said
pub data Started : Type 0 where
  started : Kernel → Started
  stuck : Started

-- `((proc_info_t*)x)->tss`; `memory` is what stands at the other addresses.
abbrev pub tss_of : (memory : ℕ → ℕ) → Created → ℕ → ℕ
tss_of memory c x = if x == c.process.arch_info then c.tss_at else memory x

-- `sched_add` on what `create_process` left
unfoldable pub add_created : (memory : ℕ → ℕ) → Kernel → Creation → Started
add_created memory k (created c s bytes) = started (record {
  sched = (sched_add (tss_of memory c) k.sched c.process).1;
  machine = s;
  bytes = bytes;
})
add_created memory k (failed s) =
    started (record k { sched = (sched_add memory k.sched static_process).1; machine = s })
add_created memory k never = stuck

-- one program: `create_process( &p, … ); sched_add( &p );`
unfoldable pub start_program :
    (fuel start : ℕ) → (memory : ℕ → ℕ) → Program → Started → Option Started
start_program fuel start memory g stuck = some stuck
start_program fuel start memory g (started k) =
    create_process fuel g.text g.t_len start g.frames g.pts g.old k.bytes static_process k.machine
    >>= λ r. some (add_created memory k r)

unfoldable pub init_process :
    (fuel start : ℕ) → (memory : ℕ → ℕ) → (p1 p2 p3 : Program) → Kernel → Option Started
init_process fuel start memory p1 p2 p3 k = do
  s1 ← start_program fuel start memory p1 (started k)
  s2 ← start_program fuel start memory p2 s1
  start_program fuel start memory p3 s2
