-- ===== src/Cpu/Trap.antt =====
-- The exception handlers of kernel/interrupt.c, and kernel/panic.c. A handler is the
-- list of what it makes the kernel do, in order; the registers that it reads are arguments.
pub mod Laws
use Prim.Native.String.{String}
use eaburns_sos.Prelude.{ℕ, ◌/◌, ◌%◌, List, [], ◌∷◌, ◌++◌, Bool, not, ◌==◌, if◌then◌else◌, bit_and}

pub data Action : Type 0 where
  -- `disable()`: interrupts are masked
  mask : Action
  -- `puts` or `kprintf` of a text with no number in it
  print : String → Action
  -- `kprintf` of a text with numbers
  print_with : String → List ℕ → Action
  -- `halt()`: the processor stops until the next interrupt
  halt : Action

-- `panic` of kernel/panic.c
unfoldable pub panic : String → List Action
panic msg = mask ∷ print "KERNEL PANIC: " ∷ print msg ∷ halt ∷ []

-- The handlers that only panic.
pub data Exception : Type 0 where
  divide debug nmi break overflow bound fpu doublefault cso : Exception
  invalidtts segnotpres stack genpro reserved floatpt align machine : Exception

abbrev message : Exception → String
message divide = "Divide by zero exception.\n"
message debug = "Debug exception.\n"
message nmi = "NMI exception.\n"
message break = "Break exception.\n"
message overflow = "Overflow exception.\n"
message bound = "Bound exception.\n"
message fpu = "FPU exctition.\n"
message doublefault = "Double fault exception.\n"
message cso = "Coprocessor segment overrun exception.\n"
message invalidtts = "Invalid TTS exception.\n"
message segnotpres = "Segment not present exception.\n"
message stack = "Stack exception.\n"
message genpro = "General protection fault exception.\n"
message reserved = "Reserved exception.\n"
message floatpt = "Floating point exception.\n"
message align = "Alignment check exception.\n"
message machine = "Machine check exception.\n"

unfoldable pub interrupt_exception : Exception → List Action
unfolding panic
interrupt_exception e = panic (message e)

unfoldable pub interrupt_illegal : (ip : ℕ) → List Action
unfolding panic
interrupt_illegal ip =
    print_with "Illegal instruction exception at ip: %d (0x%x).\n" (ip ∷ ip ∷ []) ∷ panic ""

-- `code & flag` as a test
abbrev pub flag : ℕ → ℕ → Bool
flag code f = not (bit_and code f == 0)

-- PF_ERROR_P, PF_ERROR_RW, PF_ERROR_US and PF_ERROR_RSVD
abbrev pub pf_error_p : ℕ
pf_error_p = 1

abbrev pub pf_error_rw : ℕ
pf_error_rw = 2

abbrev pub pf_error_us : ℕ
pf_error_us = 4

abbrev pub pf_error_rsvd : ℕ
pf_error_rsvd = 8

-- With ARCH_I386 and I386_VERBOSE_PAGE_FAULT, as kernel/.config sets them; `cr2` is the register.
unfoldable pub interrupt_page : (cr2 code : ℕ) → List Action
interrupt_page cr2 code =
    print_with "->Page fault for virtual address: 0x%x (%d).\n" (cr2 ∷ cr2 ∷ [])
    ∷ (if flag code pf_error_p
        then print "->Page access violation.\n"
        else print "->Page not present.\n")
    ∷ (if flag code pf_error_us
        then print "->Exception caused in user mode.\n"
        else print "->Exception caused in supervisor mode.\n")
    ∷ ((if flag code pf_error_rsvd then print "->Page reservation bit violation.\n" ∷ [] else [])
        ++ ((if flag code pf_error_rw
              then print "->Page violation caused by a write operation.\n"
              else print "->Page violation caused by a read operation.\n")
            ∷ print "Halting.\n"
            ∷ mask
            ∷ halt
            ∷ []))
