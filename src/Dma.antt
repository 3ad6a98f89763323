-- ===== src/Dma.antt =====
-- The 8-bit channels of the DMA controller: kernel/arch/i386/dev/dma.c. The functions give the bytes
-- that they write to I/O ports, in order; `none` is a read past one of the port tables.
pub mod Laws
use eaburns_sos.Prelude.{
  ℕ, ◌+◌, ◌-◌, ◌*◌, ◌/◌, ◌%◌, List, [], ◌∷◌, ◌++◌, Option, none, some, get_elem?, bit_or, sub32, u8,
}
use eaburns_sos.Irq.{Out, out}

abbrev pub io_mode : ℕ
io_mode = 0x0b

abbrev pub io_mask : ℕ
io_mask = 0x0a

abbrev pub io_page : List ℕ
io_page = 0x87 ∷ 0x83 ∷ 0x81 ∷ 0x82 ∷ 0x8f ∷ 0x8b ∷ 0x89 ∷ 0x8a ∷ []

abbrev pub io_offs : List ℕ
io_offs = 0x0 ∷ 0x2 ∷ 0x4 ∷ 0x6 ∷ 0xc0 ∷ 0xc4 ∷ 0xc8 ∷ 0xcc ∷ []

abbrev pub io_count : List ℕ
io_count = 0x1 ∷ 0x3 ∷ 0x5 ∷ 0x7 ∷ 0xc2 ∷ 0xc6 ∷ 0xca ∷ 0xce ∷ []

abbrev pub io_clear : ℕ
io_clear = 0x0c

unfoldable pub dma_disable_channel_8 : ℕ → List Out
dma_disable_channel_8 c = out io_mask (bit_or (c % 4) 4) ∷ []

-- The low two bits do not have the bit that is cleared.
unfoldable pub dma_enable_channel_8 : ℕ → List Out
dma_enable_channel_8 c = out io_mask (c % 4) ∷ []

unfoldable pub dma_set_mode_8 : (c m : ℕ) → List Out
dma_set_mode_8 c m = out io_mode (u8 (bit_or (c % 4) m)) ∷ []

unfoldable pub dma_set_page_8 : (c p : ℕ) → Option (List Out)
dma_set_page_8 c p = elim (get_elem? io_page (sub32 c 1)) [
  | none ↦ none
  | some port ↦ some (out port (p % 256) ∷ [])
]

-- the low byte and then the high byte of a value, to the port of a channel
abbrev pub two_bytes : List ℕ → (c v : ℕ) → Option (List Out)
two_bytes ports c v = elim (get_elem? ports (sub32 c 1)) [
  | none ↦ none
  | some port ↦ some (out port (v % 256) ∷ out port (v / 256 % 256) ∷ [])
]

unfoldable pub dma_set_offset_8 : (c o : ℕ) → Option (List Out)
dma_set_offset_8 c o = two_bytes io_offs c o

unfoldable pub dma_set_count_8 : (c n : ℕ) → Option (List Out)
dma_set_count_8 c n = two_bytes io_count c n

unfoldable pub dma_clear_cur_chan : List Out
dma_clear_cur_chan = out io_clear 0 ∷ []

infixl 5 ◌>>=◌
abbrev ◌>>=◌ : Option (List Out) → (List Out → Option (List Out)) → Option (List Out)
m >>= f = elim m [ none ↦ none | some a ↦ f a ]

unfoldable pub dma_program_8 : (channel addr count mode : ℕ) → Option (List Out)
dma_program_8 channel addr count mode = do
  page ← dma_set_page_8 channel (addr / 0xffff)
  offset ← dma_set_offset_8 channel (addr % 0xffff)
  size ← dma_set_count_8 channel count
  some (
      dma_disable_channel_8 channel
      ++ (dma_set_mode_8 channel mode
          ++ (page
              ++ (dma_clear_cur_chan
                  ++ (offset ++ (dma_clear_cur_chan ++ (size ++ dma_enable_channel_8 channel)))))))
