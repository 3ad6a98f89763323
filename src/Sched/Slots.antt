-- ===== src/Sched/Slots.antt =====
-- Adding processes to the table.
use eaburns_sos.Prelude.{
  ℕ, zero, suc, ◌+◌, ◌<◌, ◌≤◌, ◌≡◌, ◌⊎◌, refl, true, false, arith, none, some, ◌==◌, if◌then◌else◌,
  Bool-cases, inl, inr, ret_failure, ret_success,
}
use eaburns_sos.Cpu.Descriptor.{set_selector}
use eaburns_sos.Cpu.Descriptor.Laws.{segment_base}
use eaburns_sos.Sched.{
  Sched, Process, proc_run, is_null, status_at, free_slot, arch_sched_add, sched_add,
}

-- The search gives the first free entry of its range, or none if all are taken.
pub free_slot_lem :
    (s : Sched) (n i : ℕ)
    → ((k : ℕ) × (free_slot s n i ≡ some k)
        × (i ≤ k)
        × (k < i + n)
        × (is_null (status_at s k) ≡ true)
        × ((j : ℕ) → i ≤ j → j < k → is_null (status_at s j) ≡ false))
      ⊎ ((free_slot s n i ≡ none) × ((j : ℕ) → i ≤ j → j < i + n → is_null (status_at s j) ≡ false))
unfolding free_slot
free_slot_lem s zero i = inr (refl, λ j h k. absurd (omega arith))
free_slot_lem s (suc n) i = elim (Bool-cases (is_null (status_at s i))) [
  | inl free ↦ inl (i, rw free, omega arith, omega arith, free, λ j h k. absurd (omega arith))
  | inr taken ↦ elim (free_slot_lem s n (i + 1)) [
    | inl (k, e, lo, hi, free, before) ↦
        inl (k, rw taken e, omega arith, omega arith, free, λ j h l. ground (arith, before j))
    | inr (e, all) ↦ inr (rw taken e, λ j h l. ground (arith, all j))
  ]
]

module _ (tss_of : ℕ → ℕ) (s : Sched) (p : Process) where
  pub sched_add-some :
      (k : ℕ)
      → free_slot s 3 1 ≡ some k
      → let q = record p { status = proc_run; pid = k } in
        let s' : Sched = record s { proctab = λ j. if j == k then q else s.proctab j } in
        sched_add tss_of s p ≡ (ret_success, arch_sched_add tss_of s' q)
  unfolding sched_add
  sched_add-some k e = rw (e, sched_add)

  sched_add-none : free_slot s 3 1 ≡ none → sched_add tss_of s p ≡ (ret_failure, s)
  unfolding sched_add
  sched_add-none e = rw (e, sched_add)

  -- `sched_add` fails and changes nothing exactly if the entries 1 to 3 are taken; otherwise it puts
  -- the process, runnable, into a free one of them, numbered by it, with a segment at its task
  -- state, and leaves the other entries alone.
  pub sched_add_lem :
      (j : ℕ)
      → 1 ≤ j
      → j < 4
      → tss_of p.arch_info < 4294967296
      → let (code, s') = sched_add tss_of s p in
        ((k : ℕ) × (code ≡ ret_success)
          × (1 ≤ k)
          × (k < 4)
          × (is_null (status_at s k) ≡ true)
          × (s'.proctab j
              ≡ (if j == k then record p { status = proc_run; pid = k } else s.proctab j))
          × (segment_base (s'.gdt (5 + k)) ≡ tss_of p.arch_info))
        ⊎ ((code ≡ ret_failure) × (s' ≡ s) × (is_null (status_at s j) ≡ false))
  unfolding arch_sched_add set_selector
  sched_add_lem j lo hi small = elim (free_slot_lem s 3 1) [
    | inl (k, e, l, h, free, before) ↦ inl (
      k,
      rw (sched_add-some k e),
      l,
      h,
      free,
      rw (sched_add-some k e),
      rw (sched_add-some k e) (ground arith),
    )
    | inr (e, all) ↦ inr (rw (sched_add-none e), rw (sched_add-none e), all j lo hi)
  ]
