-- ===== src/Start/Tests.antt =====
-- Three programs on a machine as `init_memman` and `init_paging` leave it.
use eaburns_sos.Prelude.{ℕ, ◌%◌, [], ◌∷◌, refl, arith}
use eaburns_sos.Alloc.{
  alloc, find_fit, take_block, set_slot_len, set_slot_next, round_up, split, push_used, unlink_free,
}
use eaburns_sos.Alloc.Kalloc.{kalloc}
use eaburns_sos.Alloc.Client.{has_room}
use eaburns_sos.Memman.{memman_use_frame}
use eaburns_sos.Cpu.Gdt.{init_gdt}
use eaburns_sos.Cpu.Tss.{cleared_tss}
use eaburns_sos.Memman.Space.Count.{free_below}
use eaburns_sos.Memman.Space.Tests.{fuelled-Holds, machine, machine-IsUp}
use eaburns_sos.Start.{Kernel, Program, static_process, init_process}
use eaburns_sos.Start.Laws.{IsStarted, init_process_lem}

abbrev program : (text t_len : ℕ) → Program
program text t_len = record {
  text = text;
  t_len = t_len;
  frames = λ i. 0;
  pts = λ i. 0;
  old = cleared_tss;
}

abbrev kernel : Kernel
kernel = record {
  sched = record { proctab = λ i. static_process; curproc = 0; gdt = init_gdt 4096 };
  machine = machine;
  bytes = λ a. a % 256;
}

init_process_example :
    IsStarted
      (program 16 20)
      (program 36 20)
      (program 56 20)
      kernel
      (init_process 30 7 (λ a. 0) (program 16 20) (program 36 20) (program 56 20) kernel)
unfolding free_below memman_use_frame has_room kalloc alloc find_fit round_up take_block push_used
    set_slot_next split unlink_free set_slot_len
init_process_example =
    init_process_lem 1000 4000 30 7 (1008 ∷ []) (λ a. 0) (program 16 20) (program 36 20)
      (program 56 20) kernel (fuelled-Holds 30 21 (omega arith)) machine-IsUp (omega arith) refl
      (λ j a b. refl) refl
