-- ===== src/Process/Tests.antt =====
-- A process of 100 bytes on a machine as `init_memman` and `init_paging` leave it.
use eaburns_sos.Prelude.{
  ℕ, ◌+◌, ◌*◌, ◌%◌, ◌<◌, ◌≡◌, refl, Bool, true, false, inr, Option, none, some, [], ◌∷◌, arith,
}
use eaburns_sos.Alloc.{
  alloc, find_fit, take_block, set_slot_len, set_slot_next, round_up, split, push_used, unlink_free,
}
use eaburns_sos.Alloc.Kalloc.{kalloc}
use eaburns_sos.Cpu.Tss.{cleared_tss}
use eaburns_sos.Memman.{memman_alloc_frame, memman_use_frame, get_free_frame}
use eaburns_sos.Memman.Space.{
  Machine, alloc_addr_space, finish_space, map_space, map_frames, user_mem, user_frame,
}
use eaburns_sos.Memman.Space.Tests.{map_heap-Holds, machine, machine-IsUp}
use eaburns_sos.Process.{Created, Creation, created, failed, never, create_process, fill_process}
use eaburns_sos.Memman.{frame_len}
use eaburns_sos.Process.Laws.{IsGone, destroy_process-create_process}
use eaburns_sos.Process.Program.{create_process_copies, create_process_tss}
use eaburns_sos.Sched.{Process, proc_null}

abbrev no_process : Process
no_process = record {
  arch_info = 0;
  status = proc_null;
  parent = 0;
  addr_space = 0;
  pid = 0;
  userid = 0;
  groupid = 0;
  next = 0;
}

abbrev zeros : ℕ → ℕ
zeros i = 0

-- each byte holds the low byte of its address
abbrev low_bytes : ℕ → ℕ
low_bytes a = a % 256

-- the text is at address 16
abbrev small_process : Option Creation
small_process = create_process 20 16 100 7 zeros zeros cleared_tss low_bytes no_process machine

-- what a call gives, with a value for the other cases
abbrev created_in : Option Creation → Created
created_in (some (created c s b)) = c
created_in r = record {
  process = no_process;
  space = record {
    pd = 0;
    num_frames = 0;
    frames_at = 0;
    frames = zeros;
    num_pts = 0;
    pts_at = 0;
    pts = zeros;
  };
  tss_at = 0;
  tss = cleared_tss;
}

abbrev machine_in : Option Creation → Machine
machine_in (some (created c s b)) = s
machine_in r = machine

abbrev bytes_in : Option Creation → ℕ → ℕ
bytes_in (some (created c s b)) = b
bytes_in r = low_bytes

abbrev is_created : Option Creation → Bool
is_created (some (created c s b)) = true
is_created r = false

created_parts :
    (r : Option Creation)
    → is_created r ≡ true
    → r ≡ some (created (created_in r) (machine_in r) (bytes_in r))
created_parts none e = absurd (cc e)
created_parts (some (created c s b)) e = refl
created_parts (some (failed s)) e = absurd (cc e)
created_parts (some never) e = absurd (cc e)

small_process_created : is_created small_process ≡ true
unfolding create_process fill_process alloc_addr_space kalloc alloc find_fit round_up take_block
    push_used set_slot_next split unlink_free set_slot_len memman_alloc_frame get_free_frame
    finish_space map_space memman_use_frame map_frames user_frame
small_process_created = refl

small_process_made :
    small_process
    ≡ some (created (created_in small_process) (machine_in small_process) (bytes_in small_process))
small_process_made = created_parts small_process small_process_created

copies_example :
    bytes_in small_process ((created_in small_process).space.frames 2 + 5) ≡ low_bytes (16 + 5)
unfolding memman_use_frame
copies_example =
    create_process_copies 1000 4000 20 16 100 7 cleared_tss low_bytes no_process (1008 ∷ []) zeros
      zeros machine (machine_in small_process) (created_in small_process) (bytes_in small_process)
      (map_heap-Holds 5 (omega arith)) machine-IsUp (omega arith) small_process_made 2 5
      (λ x. omega arith) (λ f in_map free. inr (ground arith)) (omega arith) (omega arith)

tss_example :
    let c = created_in small_process in
    (c.tss.cr3 ≡ c.space.pd)
    × (c.tss.eip ≡ 7)
    × (c.tss.eflags ≡ 0x200)
    × (c.tss.cs ≡ 0x1b)
    × (c.tss.ss ≡ 0x23)
    × (c.tss.ds ≡ 0x23)
    × (c.tss.es ≡ 0x23)
    × (c.tss.fs ≡ 0x23)
    × (c.tss.gs ≡ 0x23)
    × (c.tss.ss0 ≡ 0x10)
    × (user_mem + 100 < c.tss.esp)
    × (c.tss.esp < c.tss.esp0)
    × (c.tss.esp0 < user_mem + c.space.num_frames * frame_len)
tss_example =
    create_process_tss 1000 4000 20 16 100 7 cleared_tss low_bytes no_process (1008 ∷ []) zeros
      zeros machine (machine_in small_process) (created_in small_process) (bytes_in small_process)
      (map_heap-Holds 5 (omega arith)) machine-IsUp (omega arith) small_process_made

back_example :
    IsGone 1000 4000 20 (1008 ∷ []) machine (created_in small_process) (machine_in small_process)
back_example =
    destroy_process-create_process 1000 4000 20 16 100 7 cleared_tss low_bytes no_process
      (1008 ∷ []) zeros zeros machine (machine_in small_process) (created_in small_process)
      (bytes_in small_process) (map_heap-Holds 10 (omega arith)) machine-IsUp (omega arith)
      small_process_made
