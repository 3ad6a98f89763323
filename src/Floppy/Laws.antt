-- ===== src/Floppy/Laws.antt =====
-- What the floppy driver finds.
use eaburns_sos.Prelude.{
  ℕ, zero, suc, ◌/◌, ◌%◌, ◌<◌, ◌≤◌, ◌≡◌, ◌≢◌, ◌⊎◌, refl, arith, inl, inr, [], ◌∷◌, some, none, true,
  false, get_elem?, ◌==◌, if◌then◌else◌, ◌&&◌,
}
use eaburns_sos.Floppy.{
  FloppyType, no, Probe, probe_failure, success, out_of_bounds, none_detected, found, floppy_type,
  cmos_floppy_index, cmos_get_data, floppy_probe, floppy_init, report,
}

-- The table has the types 0 to 5.
floppy_type_at :
    (n : ℕ)
    → ((t : FloppyType) × (get_elem? floppy_type n ≡ some t) × (n < 6))
      ⊎ ((get_elem? floppy_type n ≡ none) × (6 ≤ n))
floppy_type_at zero = inl (_, refl, omega arith)
floppy_type_at (suc zero) = inl (_, refl, omega arith)
floppy_type_at (suc (suc zero)) = inl (_, refl, omega arith)
floppy_type_at (suc (suc (suc zero))) = inl (_, refl, omega arith)
floppy_type_at (suc (suc (suc (suc zero)))) = inl (_, refl, omega arith)
floppy_type_at (suc (suc (suc (suc (suc zero))))) = inl (_, refl, omega arith)
floppy_type_at (suc (suc (suc (suc (suc (suc n)))))) = inr (refl, omega arith)

-- what the first call finds for the types `a` and `b` of the two drives
abbrev pub IsFound : (a b : ℕ) → Probe → Type 0
IsFound a b r =
    ((a ≡ 0) × (b ≡ 0) × (r ≡ probe_failure (none_detected ∷ [])))
    ⊎ (((t : FloppyType) × (get_elem? floppy_type a ≡ some t)
          × (a ≢ 0)
          × (b ≡ 0)
          × (r ≡ success (found 0 t ∷ [])))
        ⊎ (((t : FloppyType) × (t' : FloppyType) × (get_elem? floppy_type a ≡ some t)
              × (get_elem? floppy_type b ≡ some t')
              × (b ≢ 0)
              × (r ≡ success (found 0 t ∷ found 1 t' ∷ [])))
            ⊎ (((6 ≤ a) ⊎ (6 ≤ b)) × (r ≡ out_of_bounds))))

abbrev probed : (a b : ℕ) → Probe
probed a b =
    if (a == 0) && (b == 0)
    then probe_failure (none_detected ∷ [])
    else report (record { called = true; fd0 = a; fd1 = b })

suc-eq : (n : ℕ) → (suc n == 0) ≡ false
suc-eq n = ground arith

probed_lem : (a b : ℕ) → IsFound a b (probed a b)
unfolding report
probed_lem zero zero = inl (refl, refl, refl)
probed_lem zero (suc b) = elim (floppy_type_at (suc b)) [
  | inl (t', e, le) ↦
      inr (
        inr (inl (no, t', refl, e, λ q. absurd (omega arith), rw (e, report) (rw (suc-eq b) refl))))
  | inr (e, le) ↦ inr (inr (inr (inr le, rw (e, report) (rw (suc-eq b) refl))))
]
probed_lem (suc a) zero = elim (floppy_type_at (suc a)) [
  | inl (t, e, le) ↦
      inr (inl (t, e, λ q. absurd (omega arith), refl, rw (e, report) (rw (suc-eq a) refl)))
  | inr (e, le) ↦ inr (inr (inr (inl le, rw (e, report) (rw (suc-eq a) refl))))
]
probed_lem (suc a) (suc b) = elim (floppy_type_at (suc a)) [
  | inr (e, le) ↦ inr (inr (inr (inl le, rw (e, report) (rw (suc-eq a) refl))))
  | inl (t, e, le) ↦ elim (floppy_type_at (suc b)) [
    | inl (t', e', le') ↦ inr (
        inr (
          inl (
            t,
            t',
            e,
            e',
            λ q. absurd (omega arith),
            rw (e, report) (rw e' (rw (suc-eq a) (rw (suc-eq b) refl))),
          )))
    | inr (e', le') ↦
        inr (inr (inr (inr le', rw (e, report) (rw e' (rw (suc-eq a) (rw (suc-eq b) refl))))))
  ]
]

-- Whatever the CMOS holds, the first call reports both drives by their types, also a drive 0 that is
-- missing beside a drive 1, and reads past the table of types for a type above 5.
pub floppy_init_lem :
    (cmos : ℕ → ℕ) (fd0 fd1 : ℕ)
    → let d = cmos cmos_floppy_index in
      IsFound
        (d / 16 % 16)
        (d % 16)
        (floppy_init cmos (record { called = false; fd0 = fd0; fd1 = fd1 })).0
unfolding floppy_init floppy_probe cmos_get_data
floppy_init_lem cmos fd0 fd1 =
    probed_lem (cmos cmos_floppy_index / 16 % 16) (cmos cmos_floppy_index % 16)
