-- ===== src/Cpu/Tss.antt =====
-- Task state segments: kernel/arch/i386/include/tss.h, and `init_tss` of kernel/arch/i386/cpu.c.
use eaburns_sos.Prelude.{ℕ}
use eaburns_sos.Cpu.Descriptor.{kcode_selector}

-- TSS_SIZE, which is the size of `tss_t` too
abbrev pub tss_size : ℕ
tss_size = 104

abbrev pub kdata_selector : ℕ
kdata_selector = 0x10

abbrev pub ucode_selector : ℕ
ucode_selector = 0x18

abbrev pub udata_selector : ℕ
udata_selector = 0x20

-- `tss_t`
pub record Tss : Type 0 where
  pub prev_task : ℕ
  pub esp0 : ℕ
  pub ss0 : ℕ
  pub esp1 : ℕ
  pub ss1 : ℕ
  pub esp2 : ℕ
  pub ss2 : ℕ
  pub cr3 : ℕ
  pub eip : ℕ
  pub eflags : ℕ
  pub eax : ℕ
  pub ecx : ℕ
  pub edx : ℕ
  pub ebx : ℕ
  pub esp : ℕ
  pub ebp : ℕ
  pub esi : ℕ
  pub edi : ℕ
  pub es : ℕ
  pub cs : ℕ
  pub ss : ℕ
  pub ds : ℕ
  pub fs : ℕ
  pub gs : ℕ
  pub ldt : ℕ
  pub trace : ℕ
  pub bitmap : ℕ

-- `bzero( &system_tss, TSS_SIZE )`
abbrev pub cleared_tss : Tss
cleared_tss = record {
  prev_task = 0;
  esp0 = 0;
  ss0 = 0;
  esp1 = 0;
  ss1 = 0;
  esp2 = 0;
  ss2 = 0;
  cr3 = 0;
  eip = 0;
  eflags = 0;
  eax = 0;
  ecx = 0;
  edx = 0;
  ebx = 0;
  esp = 0;
  ebp = 0;
  esi = 0;
  edi = 0;
  es = 0;
  cs = 0;
  ss = 0;
  ds = 0;
  fs = 0;
  gs = 0;
  ldt = 0;
  trace = 0;
  bitmap = 0;
}

-- `init_tss`; `interrupt_irq_0` is the address of the entry point of line 0.
unfoldable pub init_tss : (interrupt_irq_0 : ℕ) → Tss
init_tss interrupt_irq_0 = record cleared_tss {
  eflags = 0x0;
  bitmap = tss_size;
  esp = 0x9fbff;
  esp0 = 0x9fbff;
  esp1 = 0x9fbff;
  esp2 = 0x9fbff;
  eip = interrupt_irq_0;
  ss = kdata_selector;
  ss0 = kdata_selector;
  ss1 = kdata_selector;
  ss2 = kdata_selector;
  ds = kdata_selector;
  es = kdata_selector;
  fs = kdata_selector;
  gs = kdata_selector;
  cs = kcode_selector;
}
