-- ===== src/Kbd/Reboot.antt =====
-- `arch_kbd_reboot` of kernel/arch/i386/dev/kbd.c. The bytes that the ports give are a list, in the
-- order in which they are read; `none` is that the bytes are used up while the code still waits.
use eaburns_sos.Prelude.{
  ℕ, ◌/◌, ◌%◌, ◌≡◌, refl, List, [], ◌∷◌, ◌++◌, Option, none, some, ◌>>=◌, ◌==◌, if◌then◌else◌,
}

-- KBD_INPUT_WAIT
unfoldable pub input_wait : List ℕ → Option (List ℕ)
input_wait [] = none
input_wait (buff ∷ reads) =
    let rest = input_wait reads in if buff / 2 % 2 == 0 then some reads else rest

-- KBD_OUTPUT_FLUSH: a status, and a byte of data for each status that says there is one
unfoldable pub output_flush : List ℕ → Option (List ℕ)
output_flush [] = none
output_flush (status ∷ []) = if status % 2 == 0 then some [] else none
output_flush (status ∷ data_byte ∷ reads) =
    let rest = output_flush reads in if status % 2 == 0 then some (data_byte ∷ reads) else rest

-- what the machine does
pub data Step : Type 0 where
  disable : Step
  write : (port value : ℕ) → Step
  halt : Step

-- what is done, with the bytes that are still to be read
unfoldable pub arch_kbd_reboot : List ℕ → Option (List Step × List ℕ)
arch_kbd_reboot reads = do
  ready ← input_wait reads
  rest ← output_flush ready
  some (disable ∷ write 0x64 0xfe ∷ halt ∷ [], rest)

-- the bytes of a controller that is busy at first and has data to be thrown away
abbrev pub AllBusy : List ℕ → Type 0
AllBusy [] = Unit
AllBusy (x ∷ xs) = (x / 2 % 2 ≡ 1) × AllBusy xs

-- The wait ends at the first status whose bit 1 is clear.
input_wait_lem :
    (busy : List ℕ) (x : ℕ) (reads : List ℕ)
    → AllBusy busy
    → x / 2 % 2 ≡ 0
    → input_wait (busy ++ x ∷ reads) ≡ some reads
unfolding input_wait
input_wait_lem [] x reads b e = rw (e, input_wait) refl
input_wait_lem (y ∷ busy) x reads (one, b) e =
    rw (one, input_wait) (input_wait_lem busy x reads b e)

-- The data bytes of the statuses in front, which all say that there is data.
abbrev pub waiting : List (ℕ × ℕ) → List ℕ
waiting [] = []
waiting ((status, byte) ∷ xs) = status ∷ byte ∷ waiting xs

abbrev pub AllFull : List (ℕ × ℕ) → Type 0
AllFull [] = Unit
AllFull ((status, byte) ∷ xs) = (status % 2 ≡ 1) × AllFull xs

output_flush_end : (x : ℕ) (reads : List ℕ) → x % 2 ≡ 0 → output_flush (x ∷ reads) ≡ some reads
unfolding output_flush
output_flush_end x [] e = rw (e, output_flush) refl
output_flush_end x (y ∷ reads) e = rw (e, output_flush) refl

output_flush_lem :
    (full : List (ℕ × ℕ)) (x : ℕ) (reads : List ℕ)
    → AllFull full
    → x % 2 ≡ 0
    → output_flush (waiting full ++ x ∷ reads) ≡ some reads
unfolding output_flush
output_flush_lem [] x reads f e = output_flush_end x reads e
output_flush_lem ((status, byte) ∷ full) x reads (one, f) e =
    rw (one, output_flush) (output_flush_lem full x reads f e)

-- However long the controller is busy and however many bytes it holds, the reboot ends once it is
-- ready and then empty: the reset is written after these reads, and no byte more is read.
pub arch_kbd_reboot_lem :
    (busy : List ℕ) (full : List (ℕ × ℕ)) (x y : ℕ) (reads : List ℕ)
    → AllBusy busy
    → x / 2 % 2 ≡ 0
    → AllFull full
    → y % 2 ≡ 0
    → arch_kbd_reboot (busy ++ x ∷ (waiting full ++ y ∷ reads))
      ≡ some (disable ∷ write 0x64 0xfe ∷ halt ∷ [], reads)
unfolding arch_kbd_reboot
arch_kbd_reboot_lem busy full x y reads b ready f empty =
    rw (input_wait_lem busy x (waiting full ++ y ∷ reads) b ready, arch_kbd_reboot)
      (rw (output_flush_lem full y reads f empty) refl)
