-- ===== src/Kbd/Tests.antt =====
-- The keyboard at concrete keys: a queue of two keys that wraps around, with echo on.
use eaburns_sos.Prelude.{◌≡◌, refl, arith, [], ◌∷◌, ◌++◌, replicate}
use eaburns_sos.Kbd.Keymap.{key_at}
use eaburns_sos.Kbd.Queue.{KeyQueue}
use eaburns_sos.Kbd.Queue.Laws.{IsValid, contents}
use eaburns_sos.Kbd.Queue.Refine.{put, get, run, spec_run, run_refines}
use eaburns_sos.Kbd.Keys.{Keyboard, handle, key_of, has, echo}
use eaburns_sos.Kbd.Keys.Laws.{handle-IsValid, handle_press}

abbrev two_keys : KeyQueue
two_keys = record { head = 98; tail = 0; count = 2; keys = replicate 100 97 }

two_keys-IsValid : IsValid two_keys
two_keys-IsValid = record {
  storage = refl;
  head_in = omega arith;
  count_in = omega arith;
  tail_at = omega arith;
}

abbrev typing : Keyboard
typing = record { queue = two_keys; kbd_state = 32775 }

run_refines_example :
    run two_keys (put 98 ∷ get ∷ get ∷ get ∷ get ∷ [])
    ≡ spec_run (contents two_keys) (put 98 ∷ get ∷ get ∷ get ∷ get ∷ [])
run_refines_example = run_refines (put 98 ∷ get ∷ get ∷ get ∷ get ∷ []) two_keys-IsValid

handle-IsValid_example : IsValid (handle typing 30 0).0.queue
handle-IsValid_example = handle-IsValid typing two_keys-IsValid 30 0

handle_press_example :
    (contents (handle typing 28 0).0.queue ≡ contents two_keys ++ (10 ∷ []))
    × ((handle typing 28 0).0.kbd_state ≡ 32775)
    × ((handle typing 28 0).1 ≡ echo 10 ∷ [])
unfolding key_of has key_at
handle_press_example =
    handle_press typing 28 13 0 refl (omega arith) (omega arith) two_keys-IsValid
      (λ e. absurd (omega (arith, e))) (λ e. absurd (omega (arith, e)))
