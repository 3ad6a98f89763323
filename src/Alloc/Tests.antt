-- ===== src/Alloc/Tests.antt =====
-- Runs of the heap on small regions.
use eaburns_sos.Prelude.{
  ℕ, ◌+◌, ◌≡◌, ◌≢◌, ◌⊎◌, refl, true, ◌==◌, if◌then◌else◌, Option, none, some, map, List, [], ◌∷◌,
  arith, ret_failure, ret_success,
}
use eaburns_sos.Prelude.Chain.{null, has, erase}
use eaburns_sos.Alloc.{
  Region, init_alloc, round_up, alloc, free, find_fit, take_block, set_slot_len, set_slot_next,
  split, push_used, unlink_free,
}
use eaburns_sos.Alloc.Inv.{IsHeap, lens, all_below}
use eaburns_sos.Alloc.Take.{alloc_lem}
use eaburns_sos.Alloc.Free.{freed, free_lem, free_unused, init_alloc_lem}
use eaburns_sos.Alloc.Kalloc.{Kalloc, kalloc, kfree, kalloc-kfree}

abbrev blank : Region
blank = record { free_list = 0; used_list = 0; slot = λ a. record { next = 0; len = 0 } }

-- a region of 100 bytes at 1000 with one used block of 12 bytes
abbrev half : Region
half = record {
  free_list = 1028;
  used_list = 1008;
  slot = λ a. record { next = 0; len = if a == 1028 then 64 else if a == 1008 then 12 else 0 };
}

abbrev fresh : Region
fresh = (init_alloc 1000 100 blank).1

abbrev heads : Option (ℕ × Region) → Option (ℕ × ℕ × ℕ)
heads none = none
heads (some (a, r)) = some (a, r.free_list, r.used_list)

-- 10 bytes become 12 and two headers.
alloc_10 : heads (alloc 5 fresh 10) ≡ some (1016, 1028, 1008)
unfolding init_alloc alloc find_fit take_block set_slot_len set_slot_next round_up split push_used
    unlink_free
alloc_10 = refl

half-IsHeap : IsHeap 1000 100 (1028 ∷ []) (1008 ∷ []) half
half-IsHeap = (
  (refl, omega arith, refl, refl),
  (refl, omega arith, refl, refl),
  λ x. ground arith,
  omega arith,
  refl,
)

init_alloc_example :
    ((init_alloc 1000 100 blank).0 ≡ ret_success)
    × IsHeap 1000 100 (1008 ∷ []) [] (init_alloc 1000 100 blank).1
init_alloc_example = init_alloc_lem 1000 100 blank (omega arith) (omega arith)

take_example :
    ((all_below (lens half) (round_up 10) (1028 ∷ []) ≡ true)
      × (alloc 5 half 10 ≡ some (null, half)))
    ⊎ ((r' : Region) × (alloc 5 half 10 ≡ some (1028 + 8, r'))
        × (has 1028 (1028 ∷ []) ≡ true)
        × IsHeap 1000 100 ((1028 + 8 + round_up 10) ∷ erase 1028 (1028 ∷ [])) (1028 ∷ 1008 ∷ []) r'
        × (lens r' 1028 ≡ round_up 10)
        × (map (lens r') (1008 ∷ []) ≡ map (lens half) (1008 ∷ [])))
unfolding round_up
take_example =
    alloc_lem 1000 100 5 half (1028 ∷ []) (1008 ∷ []) 10 half-IsHeap (omega arith) (omega arith)

free_example :
    (r' : Region) × (free 5 half (1008 + 8) ≡ some (ret_success, r'))
    × IsHeap 1000 100 (freed (lens half) 1008 (1028 ∷ [])) (erase 1008 (1008 ∷ [])) r'
    × (map (lens r') (erase 1008 (1008 ∷ [])) ≡ map (lens half) (erase 1008 (1008 ∷ [])))
free_example =
    free_lem 1000 100 5 half (1028 ∷ []) (1008 ∷ []) 1008 half-IsHeap (omega arith) (omega arith)
      refl

free_unused_example : free 5 half 1036 ≡ some (ret_failure, half)
free_unused_example =
    free_unused 1000 100 5 half (1028 ∷ []) (1008 ∷ []) 1036 half-IsHeap (omega arith)
      (ground arith) refl

abbrev kernel : Kalloc
kernel = record { kalloc_base = 1000; inited = 1; region = half }

kalloc-kfree_example :
    (kalloc 5 kernel 10 ≡ some (null, kernel))
    ⊎ ((a : ℕ) × (k1 : Kalloc) × (k2 : Kalloc) × (kalloc 5 kernel 10 ≡ some (a, k1))
        × (a ≢ null)
        × (kfree 5 k1 a ≡ some k2)
        × ((gs : List ℕ) × IsHeap 1000 100 gs (1008 ∷ []) k2.region))
kalloc-kfree_example =
    kalloc-kfree 1000 100 5 kernel (1028 ∷ []) (1008 ∷ []) 10 refl half-IsHeap (omega arith)
      (omega arith) (omega arith)
