-- ===== src/Process.antt =====
-- Processes: kernel/arch/i386/process.c. What a process has in blocks of the kernel heap is kept beside
-- the addresses of the blocks. The code does not look whether `kalloc` gave NULL. The bytes of the
-- pages are kept apart from the words of the page tables.
pub mod Copy
pub mod Laws
pub mod Program
pub mod Step
mod Tests
use eaburns_sos.Prelude.{
  ℕ, zero, suc, ◌+◌, ◌/◌, Option, none, some, ltb, if◌then◌else◌, ◌==◌, ◌||◌, bit_or, u32, sub32,
  ◌>>=◌,
}
use eaburns_sos.Prelude.Chain.{null}
use eaburns_sos.Alloc.Kalloc.{Kalloc, kalloc, kfree}
use eaburns_sos.Cpu.Tss.{Tss, kdata_selector, ucode_selector, udata_selector}
use eaburns_sos.Memman.{frame_len}
use eaburns_sos.Memman.Space.{
  AddrSpace, Machine, Space, made, refused, lost, user_mem, alloc_addr_space,
}
use eaburns_sos.Sched.{Process}
use eaburns_sos.Screen.Memory.{memcpy}

-- DATA_LEN
abbrev pub data_len : ℕ
data_len = 0x10000

-- sizeof(addr_space_t), sizeof(proc_info_t) and sizeof(tss_t)
abbrev pub addr_space_size : ℕ
addr_space_size = 20

abbrev pub proc_info_size : ℕ
proc_info_size = 4

abbrev pub tss_t_size : ℕ
tss_t_size = 104

-- How many bytes a page gets, and how many are left to copy then.
abbrev pub page_bytes : ℕ → ℕ
page_bytes left = if ltb frame_len left then frame_len else left

-- The loop that copies the program, at page `i`, with `n` pages to go.
unfoldable pub copy_pages : (n i left text : ℕ) → (frames : ℕ → ℕ) → (ℕ → ℕ) → ℕ → ℕ
copy_pages zero i left text frames bytes = bytes
copy_pages (suc n) i left text frames bytes =
    copy_pages n (i + 1) (sub32 left frame_len) text frames
      (memcpy bytes (frames i) text (page_bytes left))

-- The fields of the task state that are set; `start` is the address of `sched_start_proc`.
unfoldable pub fill_tss : Tss → (t_len start pd : ℕ) → Tss
fill_tss t t_len start pd = record t {
  esp0 = u32 (user_mem + t_len + data_len);
  ss0 = kdata_selector;
  esp = u32 (user_mem + t_len + data_len / 2);
  ss = bit_or udata_selector 3;
  es = bit_or udata_selector 3;
  ds = bit_or udata_selector 3;
  fs = bit_or udata_selector 3;
  gs = bit_or udata_selector 3;
  cs = bit_or ucode_selector 3;
  eip = start;
  eflags = 0x200;
  cr3 = pd;
}

-- A process that was made: the struct, and what its blocks hold.
pub record Created : Type 0 where
  pub process : Process
  pub space : AddrSpace
  pub tss_at : ℕ
  pub tss : Tss

-- What `create_process` gives: a process, RET_FAILURE, or what cannot be said: no address space comes
-- back, or a block is written through NULL.
pub data Creation : Type 0 where
  created : Created → Machine → (bytes : ℕ → ℕ) → Creation
  failed : Machine → Creation
  never : Creation

-- the rest of `create_process`, once there is an address space
unfoldable pub fill_process :
    (fuel text t_len start : ℕ)
    → Tss
    → (bytes : ℕ → ℕ) → Process
    → AddrSpace
    → Machine
    → Option Creation
fill_process fuel text t_len start old bytes p a s = do
  (space_at, h1) ← kalloc fuel s.heap addr_space_size
  let copied = copy_pages a.num_frames 0 t_len text a.frames bytes
  (info_at, h2) ← kalloc fuel h1 proc_info_size
  (tss_at, h3) ← kalloc fuel h2 tss_t_size
  if space_at == null || info_at == null || tss_at == null
      then some never
      else some (
          created
            (record {
              process = record p { addr_space = space_at; arch_info = info_at };
              space = a;
              tss_at = tss_at;
              tss = fill_tss old t_len start a.pd;
            })
            (record s { heap = h3 }) copied)

-- `frames`, `pts` and `old` are what the new blocks hold, `bytes` the memory that the program is
-- copied in.
unfoldable pub create_process :
    (fuel text t_len start : ℕ)
    → (frames pts : ℕ → ℕ) → Tss
    → (bytes : ℕ → ℕ) → Process
    → Machine
    → Option Creation
create_process fuel text t_len start frames pts old bytes p s =
    alloc_addr_space fuel (u32 (t_len + data_len)) frames pts s >>= λ r. elim r [
      | refused s' ↦ some (failed s')
      | lost ↦ some never
      | made a s' ↦ fill_process fuel text t_len start old bytes p a s'
    ]

-- the three blocks that `destroy_process` gives back
unfoldable pub destroy_process : (fuel : ℕ) → Created → Kalloc → Option Kalloc
destroy_process fuel c k = do
  k1 ← kfree fuel k c.tss_at
  k2 ← kfree fuel k1 c.process.arch_info
  kfree fuel k2 c.process.addr_space
