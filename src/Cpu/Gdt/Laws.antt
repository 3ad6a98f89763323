-- ===== src/Cpu/Gdt/Laws.antt =====
-- What a selector of the kernel's table leads to.
use eaburns_sos.Prelude.{
  ltb, ◌%◌, ℕ, zero, suc, ◌/◌, ◌^◌, ◌<◌, ◌≤◌, ◌≡◌, ◌⊎◌, refl, arith, inl, inr, ◌==◌, if◌then◌else◌,
}
use eaburns_sos.Cpu.Descriptor.{GlobalDescriptor, set_selector, tss_selector}
use eaburns_sos.Cpu.Descriptor.Laws.{segment_base, segment_limit}
use eaburns_sos.Cpu.Gdt.{init_gdt, cleared}

-- whether entry `i` is one of the four flat segments
abbrev pub IsFlat : ℕ → Type 0
IsFlat i = (1 ≤ i) × (i ≤ 4)

-- what entry `i` of the table is to hold
abbrev pub IsEntry : (system_tss i : ℕ) → GlobalDescriptor → Type 0
IsEntry system_tss i d =
    (IsFlat i
      × (segment_base d ≡ 0)
      × (segment_limit d ≡ 0x7ffff)
      × (d.granularity ≡ 1)
      × (d.p ≡ 1)
      × (d.dpl ≡ (if ltb i 3 then 0 else 3))
      × (d.type ≡ (if i % 2 == 1 then 27 else 19)))
    ⊎ (((i ≡ tss_selector / 8)
          × (segment_base d ≡ system_tss)
          × (segment_limit d ≡ 104)
          × (d.p ≡ 1)
          × (d.type ≡ 9))
        ⊎ (((i ≡ 0) ⊎ (6 ≤ i)) × (d ≡ cleared)))

-- Entries 1 to 4 are present segments from address 0 with a limit of 0x7ffff pages (2 GB, where
-- 0xfffff was asked for), the first two for the kernel and the others for the user, in turn for code
-- and for data; entry 5 is a task state segment at the given address with the size of one; every
-- other entry is empty.
pub init_gdt_lem :
    (system_tss i : ℕ) → system_tss < 2 ^ 32 → IsEntry system_tss i (init_gdt system_tss i)
unfolding init_gdt set_selector
init_gdt_lem system_tss zero h = inr (inr (inl refl, refl))
init_gdt_lem system_tss (suc zero) h = inl (omega arith, refl, refl, refl, refl, refl, refl)
init_gdt_lem system_tss (suc (suc zero)) h = inl (omega arith, refl, refl, refl, refl, refl, refl)
init_gdt_lem system_tss (suc (suc (suc zero))) h =
    inl (omega arith, refl, refl, refl, refl, refl, refl)
init_gdt_lem system_tss (suc (suc (suc (suc zero)))) h =
    inl (omega arith, refl, refl, refl, refl, refl, refl)
init_gdt_lem system_tss (suc (suc (suc (suc (suc zero))))) h =
    inr (inl (refl, omega arith, refl, refl, refl))
init_gdt_lem system_tss (suc (suc (suc (suc (suc (suc i)))))) h =
    inr (inr (inr (omega arith), ground arith))
