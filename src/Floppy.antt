-- ===== src/Floppy.antt =====
-- The floppy driver as far as it goes: kernel/arch/i386/dev/floppy.c, and kernel/arch/i386/cmos.c.
-- The byte that the CMOS gives for an index is a parameter; `cmos_get_data` reads it into a uint32.
pub mod Laws
mod Tests
use eaburns_sos.Prelude.{
  ℕ, suc, ◌+◌, ◌*◌, ◌/◌, ◌%◌, Bool, true, false, ◌&&◌, not, List, [], ◌∷◌, ◌++◌, Option, none, some,
  ◌==◌, if◌then◌else◌, get_elem?, u8, ◌>>=◌,
}
use eaburns_sos.Irq.{Out, out}

-- CMOS_FLOPPY_INDEX
abbrev pub cmos_floppy_index : ℕ
cmos_floppy_index = 0x10

-- What `cmos_get_data` writes and what it reads then; `cmos i` is the byte at index `i`.
unfoldable pub cmos_get_data : (cmos : ℕ → ℕ) → (i : ℕ) → List Out × ℕ
cmos_get_data cmos i = (out 0x70 (u8 i) ∷ [], cmos (u8 i))

-- the entries of `floppy_type`
pub data FloppyType : Type 0 where
  no kb360 mb12 kb720 mb144 mb288 : FloppyType

abbrev pub floppy_type : List FloppyType
floppy_type = no ∷ kb360 ∷ mb12 ∷ kb720 ∷ mb144 ∷ mb288 ∷ []

-- The file's static variables; `called` is the guard of ONLY_ONCE().
pub record Floppy : Type 0 where
  pub called : Bool
  pub fd0 : ℕ
  pub fd1 : ℕ

unfoldable pub floppy_probe : (cmos : ℕ → ℕ) → Floppy → List Out × Floppy
unfolding cmos_get_data
floppy_probe cmos f =
    let (outs, cmos_data) = cmos_get_data cmos cmos_floppy_index in
    (outs, record f { fd0 = cmos_data / 16 % 16; fd1 = cmos_data % 16 })

-- what is printed
pub data Message : Type 0 where
  none_detected : Message
  found : (drive : ℕ) → FloppyType → Message

-- RET_INITED, RET_PROBE_FAILURE, RET_SUCCESS, and a read past `floppy_type`
pub data Probe : Type 0 where
  inited : Probe
  probe_failure : List Message → Probe
  success : List Message → Probe
  out_of_bounds : Probe

-- the messages about the drives
unfoldable pub report : Floppy → Probe
report f = elim (get_elem? floppy_type f.fd0) [
  | none ↦ out_of_bounds
  | some t0 ↦ if f.fd1 == 0 then success (found 0 t0 ∷ []) else elim (get_elem? floppy_type f.fd1) [
    | none ↦ out_of_bounds
    | some t1 ↦ success (found 0 t0 ∷ found 1 t1 ∷ [])
  ]
]

unfoldable pub floppy_init : (cmos : ℕ → ℕ) → Floppy → Probe × Floppy
unfolding floppy_probe
floppy_init cmos f =
    if f.called
    then (inited, f)
    else (let g = (floppy_probe cmos (record f { called = true })).1 in
        (if (g.fd0 == 0) && (g.fd1 == 0) then probe_failure (none_detected ∷ []) else report g, g))
