-- ===== src/Process/Program.antt =====
-- What a new process finds: its program, its stacks and its task state.
use mathlib.Core.Path.{subst}
use eaburns_sos.Prelude.{
  ℕ, ◌+◌, ◌-◌, ◌*◌, ◌/◌, ◌<◌, ◌≤◌, ◌≡◌, ◌⊎◌, ◌∙◌, sym, ap, arith, u32, sub32, List, some,
}
use eaburns_sos.Alloc.Client.{Holds, grown}
use eaburns_sos.Cpu.Tss.{Tss}
use eaburns_sos.Memman.{frame_len}
use eaburns_sos.Memman.Space.{limit, AddrSpace, Machine, user_mem, num_frames_of}
use eaburns_sos.Memman.Space.Laws.{IsUp}
use eaburns_sos.Memman.Space.Balance.{count_of}
use eaburns_sos.Memman.Space.Result.{there_and_back}
use eaburns_sos.Memman.Space.Owned.{HasPages, space_pages}
use eaburns_sos.Screen.Memory.{IsBytes}
use eaburns_sos.Process.{
  Created, created, page_bytes, copy_pages, create_process, fill_tss, data_len,
}
use eaburns_sos.Process.Copy.{Apart, copy_pages_lem}
use eaburns_sos.Process.Laws.{create_process_inv, filled}
use eaburns_sos.Sched.{Process}

-- No frame that is free, nor the byte after it, holds one of the first 4096 bytes of the text.
abbrev pub IsClear : (text : ℕ) → Machine → Type 0
IsClear text s =
    (f : ℕ)
    → f < limit s.memory
    → count_of s.memory f ≡ 0
    → (f * frame_len + 1 + frame_len ≤ text) ⊎ (text + frame_len ≤ f * frame_len + 1)

pages-Apart :
    (n text : ℕ) (s : Machine) (a : AddrSpace)
    → HasPages n s a
    → IsClear text s
    → Apart n text a.frames
pages-Apart n text s a pages clear = (
  (λ j h. let (f, at_f, in_map, free) = pages.0 j h in omega (arith, clear f in_map free)),
  (λ j j' lt h.
      let (f, at_f, in_map, free) = pages.0 j (omega arith) in
      let (f', at_f', in_map', free') = pages.0 j' h in omega (arith, pages.1 j j' lt h)),
)

module _ (base total fuel text t_len start : ℕ) (old : Tss) (bytes : ℕ → ℕ) (p : Process)
    (us : List ℕ) (frames pts : ℕ → ℕ) (s s' : Machine) (c : Created) (bytes' : ℕ → ℕ)
    (holds : Holds base total fuel us 5 s.heap) (up : IsUp s.memory)
    (small : t_len + data_len < 1023 * frame_len)
    (e : create_process fuel text t_len start frames pts old bytes p s
      ≡ some (created c s' bytes')) where
  parts :
      (a : AddrSpace) × HasPages (num_frames_of (t_len + data_len)) s a
      × (a.num_frames ≡ num_frames_of (t_len + data_len))
      × (c.space ≡ a)
      × (c.tss ≡ fill_tss old t_len start a.pd)
      × (bytes' ≡ copy_pages a.num_frames 0 t_len text a.frames bytes)
  parts =
      let (a, s1, made_it, rest) =
        create_process_inv base total fuel text t_len start old bytes p frames pts s s' c bytes'
          e in
      let size = u32 (t_len + data_len) in
      let same : size ≡ t_len + data_len = omega arith in
      let (q, heap_is, a_is, b_is, balance, within) =
        there_and_back base total fuel us 1 size frames pts s s1 a holds up (omega arith) made_it in
      let us2 = grown q.b (grown q.a us) in
      let holds2 : Holds base total fuel us2 3 s1.heap =
        subst (Holds base total fuel us2 3) (sym heap_is) q.holds in
      let (pages, count) =
        space_pages base total fuel us 1 size frames pts s s1 a holds up (omega arith) made_it in
      let (space_at, info_at, h, process_is, space_is, tss_is, s_is, bytes_is, fresh, holds3) =
        filled base total fuel text t_len start old bytes p us2 0 a s1 s' c bytes' holds2 rest in
      (
        a,
        subst (λ x. HasPages (num_frames_of x) s a) same pages,
        count ∙ ap num_frames_of same,
        space_is,
        tss_is,
        bytes_is,
      )

  -- Where `create_process` makes a process of up to 1023 pages, from a text whose first 4096 bytes lie
  -- apart from every free frame and the byte after it, each page `j` gets the first bytes of the text,
  -- not those from `j * 4096` on: as many as `t_len - j * 4096` is on a uint32, and 4096 at most.
  pub create_process_copies :
      (j i : ℕ)
      → IsBytes bytes
      → IsClear text s
      → j < num_frames_of (t_len + data_len)
      → i < page_bytes (sub32 t_len (j * frame_len))
      → bytes' (c.space.frames j + i) ≡ bytes (text + i)
  create_process_copies j i b clear hj hi =
      let (a, pages, count, space_is, tss_is, bytes_is) = parts in
      let n = num_frames_of (t_len + data_len) in
      let back : j - 0 ≡ j = omega arith in
      ap (λ x. bytes' (x.frames j + i)) space_is
      ∙ ap (λ m. m (a.frames j + i)) bytes_is
      ∙ ap (λ m. copy_pages m 0 t_len text a.frames bytes (a.frames j + i)) count
      ∙ copy_pages_lem n text a.frames (pages-Apart n text s a pages clear) n 0 t_len j i bytes
          (omega arith) (omega arith) (omega arith) (omega arith) (omega arith) b
          (subst (λ x. i < page_bytes (sub32 t_len (x * frame_len))) (sym back) hi)

  -- The task state of a process of up to 1023 pages has its own page directory, the user's code segment,
  -- the user's data segment for the stack and in all of ds, es, fs and gs, the kernel's data segment for
  -- the kernel stack, and interrupts on; both stacks begin within the process's pages, above the program.
  pub create_process_tss :
      (c.tss.cr3 ≡ c.space.pd)
      × (c.tss.eip ≡ start)
      × (c.tss.eflags ≡ 0x200)
      × (c.tss.cs ≡ 0x1b)
      × (c.tss.ss ≡ 0x23)
      × (c.tss.ds ≡ 0x23)
      × (c.tss.es ≡ 0x23)
      × (c.tss.fs ≡ 0x23)
      × (c.tss.gs ≡ 0x23)
      × (c.tss.ss0 ≡ 0x10)
      × (user_mem + t_len < c.tss.esp)
      × (c.tss.esp < c.tss.esp0)
      × (c.tss.esp0 < user_mem + c.space.num_frames * frame_len)
  unfolding fill_tss
  create_process_tss =
      let (a, pages, count, space_is, tss_is, bytes_is) = parts in
      let esp : c.tss.esp ≡ u32 (user_mem + t_len + data_len / 2) = ap (λ t. t.esp) tss_is in
      let esp0 : c.tss.esp0 ≡ u32 (user_mem + t_len + data_len) = ap (λ t. t.esp0) tss_is in
      let mapped : c.space.num_frames ≡ (t_len + data_len) / frame_len + 1 =
        ap (λ x. x.num_frames) space_is ∙ count in
      (
        ap (λ t. t.cr3) tss_is ∙ sym (ap (λ x. x.pd) space_is),
        ap (λ t. t.eip) tss_is,
        ap (λ t. t.eflags) tss_is,
        ap (λ t. t.cs) tss_is,
        ap (λ t. t.ss) tss_is,
        ap (λ t. t.ds) tss_is,
        ap (λ t. t.es) tss_is,
        ap (λ t. t.fs) tss_is,
        ap (λ t. t.gs) tss_is,
        ap (λ t. t.ss0) tss_is,
        omega (arith, esp),
        omega (arith, esp, esp0),
        omega (arith, esp0, mapped),
      )
