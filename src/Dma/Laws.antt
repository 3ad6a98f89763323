-- ===== src/Dma/Laws.antt =====
-- Which channel and which address kernel/arch/i386/dev/dma.c programs.
use eaburns_sos.Prelude.{
  ℕ, zero, suc, ◌+◌, ◌*◌, ◌/◌, ◌%◌, ◌<◌, ◌≡◌, refl, arith, [], ◌∷◌, some, u8, bit_or,
}
use eaburns_sos.Irq.{out}
use eaburns_sos.Dma.{
  dma_program_8, dma_disable_channel_8, dma_enable_channel_8, dma_set_mode_8, dma_set_page_8,
  dma_set_offset_8, dma_set_count_8, dma_clear_cur_chan,
}

-- The controller, as its documentation gives the ports: the page port of each of the channels 0 to
-- 3; the offset port is twice the channel, and the count port is one more.
abbrev pub page_port : ℕ → ℕ
page_port zero = 0x87
page_port (suc zero) = 0x83
page_port (suc (suc zero)) = 0x81
page_port (suc (suc (suc n))) = 0x82

-- For the channels 1 to 3, `dma_program_8` masks, sets the mode of and unmasks the channel that it is
-- given, and puts the page, the offset and the count into the registers of the channel before it.
pub dma_program_8_lem :
    (c addr count mode : ℕ)
    → c < 3
    → dma_program_8 (c + 1) addr count mode
      ≡ some (
          out 0x0a (c + 5)
          ∷ out 0x0b (u8 (bit_or (c + 1) mode))
          ∷ out (page_port c) (addr / 65535 % 256)
          ∷ out 0x0c 0
          ∷ out (2 * c) (addr % 65535 % 256)
          ∷ out (2 * c) (addr % 65535 / 256 % 256)
          ∷ out 0x0c 0
          ∷ out (2 * c + 1) (count % 256)
          ∷ out (2 * c + 1) (count / 256 % 256)
          ∷ out 0x0a (c + 1)
          ∷ [])
unfolding dma_program_8 dma_disable_channel_8 dma_enable_channel_8 dma_set_mode_8 dma_set_page_8
    dma_set_offset_8 dma_set_count_8 dma_clear_cur_chan
dma_program_8_lem zero addr count mode h = refl
dma_program_8_lem (suc zero) addr count mode h = refl
dma_program_8_lem (suc (suc zero)) addr count mode h = refl
dma_program_8_lem (suc (suc (suc c))) addr count mode h = absurd (omega arith)
