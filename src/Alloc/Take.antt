-- ===== src/Alloc/Take.antt =====
-- `alloc` on a heap that holds.
use eaburns_sos.Prelude.{
  map, ℕ, ◌+◌, ◌<◌, ◌≡◌, ◌⊎◌, refl, true, List, ◌∷◌, arith, ◌==◌, Bool-cases, inl, inr, some,
  ==_iff, length, u32,
}
use eaburns_sos.Prelude.Chain.{null, has, erase, prev_of, Links}
use eaburns_sos.Alloc.{Region, round_up, take_block, alloc}
use eaburns_sos.Alloc.Carve.{carved, carved-IsHeap, carved_used}
use eaburns_sos.Alloc.Inv.{
  find_fit_lem, fit_of, fit_of_none, fit_of_some, round_up_lem, all_below, bounds, nexts, lens,
  IsHeap,
}

alloc_eq :
    (fuel : ℕ) (r : Region) (fs : List ℕ) (size : ℕ)
    → Links (nexts r) r.free_list fs
    → length fs < fuel
    → size < 4294967285
    → let p = fit_of (lens r) (round_up size) fs in
      alloc fuel r size ≡ some (take_block r (round_up size) (prev_of p null fs) p)
unfolding alloc
alloc_eq fuel r fs size c enough small =
    let s = round_up_lem size (omega arith) in
    rw (find_fit_lem fuel r (round_up size) null r.free_list fs c enough (omega arith)) refl

-- On a heap that holds, `alloc` changes nothing and returns NULL when no free block has room for the
-- size, made divisible by 4, and a header; otherwise it returns the data of the first one that has,
-- cut to that size. The rest of that block is free, the heap holds, and the used blocks keep their
-- sizes.
pub alloc_lem :
    (base total fuel : ℕ) (r : Region) (fs us : List ℕ) (size : ℕ)
    → IsHeap base total fs us r
    → length fs < fuel
    → size < 4294967285
    → let s = round_up size in
      let p = fit_of (lens r) s fs in
      ((all_below (lens r) s fs ≡ true) × (alloc fuel r size ≡ some (null, r)))
      ⊎ ((r' : Region) × (alloc fuel r size ≡ some (p + 8, r'))
          × (has p fs ≡ true)
          × IsHeap base total ((p + 8 + s) ∷ erase p fs) (p ∷ us) r'
          × (lens r' p ≡ s)
          × (map (lens r') us ≡ map (lens r) us))
unfolding take_block
alloc_lem base total fuel r fs us size heap enough small =
    let s = round_up size in
    let p = fit_of (lens r) s fs in
    let eq = alloc_eq fuel r fs size heap.0 enough small in
    elim (Bool-cases (p == null)) [
      | inl none ↦
          let z : p ≡ null = (==_iff _ _).0 none in
          inl (fit_of_none (nexts r) r.free_list (lens r) s fs heap.0 z, rw none at eq)
      | inr found ↦
          let fit = fit_of_some (lens r) s fs (λ z. ground arith) in
          let b = bounds base total (lens r) fs us p heap.2 (ground arith) in
          let at_p : u32 (p + 8) ≡ p + 8 = ground (arith, heap.3) in
          let used = carved_used base total r fs us p s heap fit.0 fit.1 in
          inr (
            carved r s (prev_of p null fs) p,
            rw at_p at (rw found at eq),
            fit.0,
            carved-IsHeap base total r fs us p s heap fit.0 fit.1,
            used.0,
            used.1,
          )
    ]
