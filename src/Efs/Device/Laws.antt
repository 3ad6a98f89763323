-- ===== src/Efs/Device/Laws.antt =====
-- Blocks that are written and read.
use eaburns_sos.Prelude.{ℕ, ◌*◌, ◌<◌, ◌≡◌, ◌≢◌, arith, List, length, some}
use eaburns_sos.Efs.Device.{Device, read_block, write_block, offset_of}

module _ (dev : Device) where
  open dev use {Image, length-pread, pread-pwrite_self, pread-pwrite_apart}

  offset_of_lem : (n : ℕ) → n < 2097152 → offset_of dev n ≡ some (1024 * n)
  offset_of_lem n h = ground arith

  pub read-write_block :
      (d d' : Image) (n : ℕ) (b : List ℕ)
      → n < 2097152
      → length b ≡ 1024
      → write_block dev d n b ≡ some d'
      → read_block dev d' n ≡ some b
  unfolding write_block read_block
  read-write_block d d' n b h len e =
      let o = offset_of_lem n h in
      rw (o, read_block) (pread-pwrite_self d d' (1024 * n) b len (rw (o, write_block) at e))

  pub read-write_block_ne :
      (d d' : Image) (n m : ℕ) (b : List ℕ)
      → n < 2097152
      → m < 2097152
      → n ≢ m
      → length b ≡ 1024
      → write_block dev d n b ≡ some d'
      → read_block dev d' m ≡ read_block dev d m
  unfolding write_block read_block
  read-write_block_ne d d' n m b hn hm ne len e =
      let o = offset_of_lem n hn in
      rw (offset_of_lem m hm, read_block)
        (pread-pwrite_apart d d' (1024 * n) (1024 * m) b len (rw (o, write_block) at e)
          (omega arith))

  pub length-read_block :
      (d : Image) (n : ℕ) (b : List ℕ) → n < 2097152 → read_block dev d n ≡ some b → length b ≡ 1024
  unfolding read_block
  length-read_block d n b h e =
      length-pread d (1024 * n) b (rw (offset_of_lem n h, read_block) at e)
