-- ===== src/Timer/Tests.antt =====
-- The timer with two active events: one that is due and does not repeat, before one that repeats.
use eaburns_sos.Prelude.{ℕ, ◌≡◌, ◌⊎◌, refl, arith, List, [], ◌∷◌, ◌==◌, if◌then◌else◌, true, some}
use eaburns_sos.Timer.{Timer, TimeEvent, time_event_del, timer_interrupt}
use eaburns_sos.Timer.Chain.{Chain, has}
use eaburns_sos.Timer.Laws.{time_event_del_lem}
use eaburns_sos.Timer.Tick.{timer_interrupt_lem}
use eaburns_sos.Timer.Turn.{ticked}

abbrev nodes : ℕ → TimeEvent
nodes a =
    if a == 16
    then record { event = 7; arg = 1; t_remaining = 1; t_interval = 0; next = 32 }
    else if a == 32
    then record { event = 9; arg = 2; t_remaining = 5; t_interval = 5; next = 0 }
    else record { event = 0; arg = 0; t_remaining = 0; t_interval = 0; next = 0 }

abbrev two_events : Timer
two_events = record { head = 16; node = nodes }

two_events-Chain : Chain nodes 16 (16 ∷ 32 ∷ [])
two_events-Chain = (
  refl,
  (λ e. absurd (omega (arith, e))),
  refl,
  (refl, (λ e. absurd (omega (arith, e))), refl, refl),
)

del_example :
    (t' : Timer) × (time_event_del 3 two_events 16 ≡ some t')
    × Chain t'.node t'.head (32 ∷ [])
    × ((has 16 (16 ∷ 32 ∷ []) ≡ true) ⊎ (t' ≡ two_events))
del_example =
    time_event_del_lem 3 two_events 16 (16 ∷ 32 ∷ []) (λ e. absurd (omega (arith, e)))
      two_events-Chain (omega arith)

-- The callbacks write down their event and argument.
abbrev note : ℕ → ℕ → List ℕ → List ℕ
note event arg w = event ∷ arg ∷ w

abbrev call_note : ℕ → ℕ → Timer × List ℕ → Timer × List ℕ
call_note event arg (t, w) = (t, note event arg w)

abbrev no_notes : List ℕ
no_notes = []

interrupt_example :
    (t' : Timer) × (timer_interrupt call_note 3 (two_events, no_notes) ≡ some (t', 7 ∷ 1 ∷ []))
    × Chain t'.node t'.head (32 ∷ [])
    × ((a : ℕ)
        → (t'.node a).t_remaining
          ≡ (if has a (16 ∷ 32 ∷ []) then ticked (nodes a) else (nodes a).t_remaining))
interrupt_example =
    timer_interrupt_lem call_note note (λ event arg t w. refl) 3 two_events no_notes (16 ∷ 32 ∷ [])
      two_events-Chain (omega arith)
