-- ===== src/Cpu/Gdt.antt =====
-- The global descriptor table, as `init_cpu` of kernel/arch/i386/cpu.c sets it up.
pub mod Laws
use eaburns_sos.Prelude.{ℕ, ◌+◌, ◌*◌, ◌/◌, ◌==◌, if◌then◌else◌, u16}
use eaburns_sos.Cpu.Descriptor.{
  GlobalDescriptor, set_selector, kcode_selector, tss_selector, dpl_kernel, dpl_user,
}
use eaburns_sos.Cpu.Tss.{kdata_selector, ucode_selector, udata_selector, tss_size}

-- GDT_ENTRIES, with SCHED_MAX_PROCS = 4
abbrev pub gdt_entries : ℕ
gdt_entries = 10

-- GDT_ER and GDT_RW
abbrev pub gdt_er : ℕ
gdt_er = 27

abbrev pub gdt_rw : ℕ
gdt_rw = 19

-- an entry that `bzero` has cleared
abbrev pub cleared : GlobalDescriptor
cleared = record {
  limit_low = 0;
  base_low = 0;
  type = 0;
  dpl = 0;
  p = 0;
  limit_high = 0;
  avl = 0;
  zero = 0;
  opsize = 0;
  granularity = 0;
  base_high = 0;
}

-- `__set_selector( &gdt[i], base, limit, type, dpl )`
unfoldable pub set_entry :
    (ℕ → GlobalDescriptor) → (i base limit type dpl : ℕ) → ℕ → GlobalDescriptor
set_entry gdt i base limit type dpl =
    λ j. if j == i then set_selector base limit type dpl 1 1 else gdt j

-- The table; `system_tss` is the address of the kernel's own task state segment.
unfoldable pub init_gdt : (system_tss : ℕ) → ℕ → GlobalDescriptor
unfolding set_entry
init_gdt system_tss =
    let kernel =
      set_entry (set_entry (λ i. cleared) (kcode_selector / 8) 0 0xfffff gdt_er dpl_kernel)
        (kdata_selector / 8) 0 0xfffff gdt_rw dpl_kernel in
    let user =
      set_entry (set_entry kernel (ucode_selector / 8) 0 0xfffff gdt_er dpl_user)
        (udata_selector / 8) 0 0xfffff gdt_rw dpl_user in
    set_entry user (tss_selector / 8) system_tss tss_size 0x9 dpl_kernel

-- `table_descriptor`
pub record TableDescriptor : Type 0 where
  pub limit : ℕ
  pub base : ℕ

-- `gdtd`; `gdt` is the address of the table, whose entries have 8 bytes.
unfoldable pub init_gdtd : (gdt : ℕ) → TableDescriptor
init_gdtd gdt = record { limit = u16 (8 * gdt_entries); base = gdt }
