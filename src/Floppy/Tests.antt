-- ===== src/Floppy/Tests.antt =====
-- Drives that the CMOS can report.
use eaburns_sos.Prelude.{◌≡◌, refl, [], ◌∷◌, false}
use eaburns_sos.Floppy.{
  floppy_init, floppy_probe, cmos_get_data, report, success, out_of_bounds, found, no, mb144,
}

one_drive :
    (floppy_init (λ i. 0x40) (record { called = false; fd0 = 0; fd1 = 0 })).0
    ≡ success (found 0 mb144 ∷ [])
unfolding floppy_init floppy_probe cmos_get_data report
one_drive = refl

-- the second drive only
second_drive :
    (floppy_init (λ i. 0x04) (record { called = false; fd0 = 0; fd1 = 0 })).0
    ≡ success (found 0 no ∷ found 1 mb144 ∷ [])
unfolding floppy_init floppy_probe cmos_get_data report
second_drive = refl

unknown_type :
    (floppy_init (λ i. 0x60) (record { called = false; fd0 = 0; fd1 = 0 })).0 ≡ out_of_bounds
unfolding floppy_init floppy_probe cmos_get_data report
unknown_type = refl
