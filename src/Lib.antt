-- ===== src/Lib.antt =====
-- SOS, a small operating system for the i386, and EFS, its file system with the tools that make it.
--
-- The kernel is interrupt driven. The interrupt table (Cpu.Idt) leads an exception to a handler that
-- stops the machine (Cpu.Trap), an interrupt line through the callback table (Irq) to the handler that
-- bound it, and a system call to the scheduler (Sched). The timer's line counts timed events down
-- (Timer); the scheduler is one of these events. The keyboard's line ends in the key handler, which
-- keeps modifier flags and a ring of typed keys (Kbd). What the kernel prints goes through kprintf and
-- itoa (Text) to the basic console, which draws into video memory (Screen). Memory is handed out in
-- frames (Memman) and in blocks of the kernel heap (Alloc); a process gets its memory from both
-- (Process), as the first ones do at the start (Start). DMA transfers are set up by Dma, and the floppy
-- drives are looked for by Floppy. The EFS tools work on a device of blocks (Efs).
--
-- Files, and the code that they model:
--   Kbd       kernel/dev/bcon_kbd.c and its header: Kbd.Keymap is keymaps, Kbd.Queue is input_queue with
--             enqueue, dequeue and bcon_input_queue_head, Kbd.Keys is kbd_state and bcon_kbd_handle;
--             Kbd.Driver is kernel/dev/kbd.c and Kbd.Reboot kernel/arch/i386/dev/kbd.c.
--   Irq       kernel/irq.c, interrupt_irq of kernel/interrupt.c, kernel/arch/i386/irq.c; Irq.Pic is
--             kernel/arch/i386/8259_pic.c and Irq.Pit kernel/arch/i386/8253_timer.c.
--   Cpu       kernel/arch/i386/descriptor.c (Cpu.Descriptor), the two tables of
--             kernel/arch/i386/cpu.c (Cpu.Gdt and Cpu.Idt) and its task state (Cpu.Tss),
--             kernel/interrupt.c and kernel/panic.c (Cpu.Trap).
--   Timer     kernel/timer.c. Events live at addresses of a store, as the code chains structs that
--             their owners allocate, so aliasing is that of the code.
--   Sched     kernel/sched.c, kernel/arch/i386/sched.c, interrupt_syscall of kernel/interrupt.c.
--   Memman    the frames of kernel/memman.c; Memman.Space is its alloc_addr_space and
--             free_addr_space; Memman.Paging is kernel/arch/i386/paging.c.
--   Process   kernel/arch/i386/process.c: create_process and destroy_process.
--   Start     init_process of kernel/kmain.c, kernel/init.c (Start.Init).
--   Floppy    kernel/arch/i386/dev/floppy.c and kernel/arch/i386/cmos.c.
--   Alloc     kernel/alloc.c and its header, kernel/lib/kalloc.c (Alloc.Kalloc). The headers of the blocks
--             are kept by address; Alloc.Inv says when the two lists tile a region. Alloc.Client is what a
--             client of the heap relies on: the used blocks after calls of kalloc and kfree.
--   Dma       kernel/arch/i386/dev/dma.c.
--   Screen    kernel/dev/bcon.c, kernel/dev/bcon_cursor.c, kernel/arch/i386/dev/bcon.c and
--             kernel/lib/memutil.c (Screen.Memory).
--   Text      kernel/lib/kstdio.c (Text.Number, Text.Format), kernel/lib/kstring.c (kstrcmp in
--             Text.Compare, the others in Text.Buffer) and kernel/console.c (Text.Compare).
--   Efs       efs/block.c (Efs.Device, Efs.Block), efs/superblock.c and the checks of it (Efs.Superblock),
--             efs/inode.c (Efs.Inode, Efs.Pointer), the files of efs/efs.c (Efs.File), efs/mkefs.c and
--             efs/writeefs.c (Efs.Tools; create_superblock is in Efs.Superblock).
--   Prelude   what the others share: words, bits, lists and tests over the native numbers.
-- A definition has the name of its C function; a helper named for a loop or a branch says which.
-- Tests.antt of a part evaluates or applies it at concrete values.
--
-- Numbers are natural numbers, with the wrap-around of C's integers written out. Static variables are
-- fields of a record that the functions pass on. What the code leaves undefined, a read or write past
-- a table, is a value of its own (wild, out_of_bounds, outside, crashes, none), and so is a loop that does
-- not end (lost, never, stuck). What an address space takes is kept within the block of the frame map:
-- the entries past it are other blocks of the heap. The kernel and what is used of its heap are taken
-- to lie below the frames that init_memman leaves free, from 128 KB on. Hardware and the operating system
-- under the tools are parameters with laws: the registers of the video controller (Screen.Crtc), block
-- devices (Efs.Device; Efs.Disk is one), the bytes read from a port. So are the addresses of assembly
-- entry points and what a timer callback does.
--
-- Loops over a fixed range are recursions on the count. The walks along the timer's chain and the lists
-- of the heap, the round of the scheduler (four entries), the string functions and the loop of kprintf
-- run on fuel; the theorems say how much is enough, one more than the number of active events or of
-- blocks (for a client of the heap also one more for each call), the size of the process table, one more
-- than the length of a string, and one more than the number of parts of the format.
--
-- Not modelled: the boot loader and the assembly files; the arguments of the EFS tools; the order in
-- which init_cpu and kmain call the parts, whose functions are modelled one by one; fdc_get_status of the
-- floppy driver, which nothing calls.
pub mod Prelude
pub mod Alloc
pub mod Kbd
pub mod Irq
pub mod Cpu
pub mod Timer
pub mod Sched
pub mod Memman
pub mod Process
pub mod Start
pub mod Floppy
pub mod Dma
pub mod Screen
pub mod Text
pub mod Efs
