-- ===== src/Timer.antt =====
-- Timed events: kernel/timer.c. The events are structs that their owners allocate, chained through
-- `next`; a pointer is a number, and NULL is 0. A loop over the chain runs on fuel; `none` means that
-- the fuel ran out.
pub mod Chain
pub mod Laws
pub mod Turn
pub mod Tick
mod Tests
use eaburns_sos.Prelude.{
  ℕ, zero, suc, ◌+◌, ◌-◌, ◌%◌, Bool, true, false, ◌||◌, Option, none, some, ◌==◌, if◌then◌else◌,
  sub32, ◌>>=◌,
}

abbrev pub null : ℕ
null = 0

-- `time_event_t`; the callback and its argument are addresses
pub record TimeEvent : Type 0 where
  pub event : ℕ
  pub arg : ℕ
  pub t_remaining : ℕ
  pub t_interval : ℕ
  pub next : ℕ

-- The static `head`, and the memory that holds the events.
pub record Timer : Type 0 where
  pub head : ℕ
  pub node : ℕ → TimeEvent

abbrev pub store : Timer → ℕ → TimeEvent → Timer
store t p v = record t { node = λ a. if a == p then v else t.node a }

-- `p->next = q`
unfoldable pub set_next : Timer → ℕ → ℕ → Timer
set_next t p q = store t p (record (t.node p) { next = q })

-- `p->t_remaining = n`
unfoldable pub set_remaining : Timer → ℕ → ℕ → Timer
set_remaining t p n = store t p (record (t.node p) { t_remaining = n })

-- `for( j = …; p != NULL && p != e; j = p, p = p->next );`, with the last `j` and `p`
unfoldable pub find : ℕ → Timer → (e j p : ℕ) → Option (ℕ × ℕ)
find zero t e j p = none
find (suc fuel) t e j p =
    let rest = find fuel t e p (t.node p).next in if p == null || p == e then some (j, p) else rest

-- TIME_EVENT_REPEAT is 1.
abbrev pub fresh : (interval repeat funct arg : ℕ) → TimeEvent
fresh interval repeat funct arg = record {
  event = funct;
  arg = arg;
  t_remaining = interval;
  t_interval = if repeat == 1 then interval else 0;
  next = null;
}

unfoldable pub time_event_set : ℕ → Timer → (e interval repeat funct arg : ℕ) → Option Timer
time_event_set fuel t e interval repeat funct arg = do
  (j, p) ← find fuel t e null t.head
  if p == e then some t else some (store t e (fresh interval repeat funct arg))

-- the unlinking at the end of `time_event_del`
unfoldable pub unlink : Timer → (j p : ℕ) → Timer
unfolding set_next
unlink t j p =
    if j == null then record t { head = (t.node t.head).next } else set_next t j (t.node p).next

unfoldable pub time_event_del : ℕ → Timer → ℕ → Option Timer
time_event_del fuel t e = do
  (j, p) ← find fuel t e null t.head
  if p == e then some (unlink t j p) else some t

-- The linking at the end of `time_event_add`. On an empty chain the code writes `head->next` through
-- NULL, here at address 0.
unfoldable pub link : Timer → ℕ → Timer
unfolding set_next
link t e =
    let t' = if t.head == null then set_next t t.head null else t in
    record (set_next t' e t'.head) { head = e }

unfoldable pub time_event_add : ℕ → Timer → ℕ → Option Timer
unfolding link
time_event_add fuel t e = do
  (j, p) ← find fuel t e null t.head
  if p == e then some t else some (link t e)

-- `timer_interrupt`. What a callback does, to the timer and to the rest of the kernel `W`, is a
-- parameter.
module _ {W : Type 0} (call : (event arg : ℕ) → Timer × W → Timer × W) where
  -- the branch of an event whose time has come, up to the callback
  unfoldable pub expire : ℕ → Timer → ℕ → Option Timer
  expire fuel t p =
      if (t.node p).t_interval == 0
      then time_event_del fuel t p
      else some (set_remaining t p (t.node p).t_interval)

  -- the body of the loop for one event
  unfoldable pub tick_one : ℕ → Timer × W → ℕ → Option (Timer × W)
  tick_one fuel (t, w) p =
      let t1 = set_remaining t p (sub32 (t.node p).t_remaining 1) in
      if (t1.node p).t_remaining == 0
      then (do t2 ← expire fuel t1 p; some (call (t2.node p).event (t2.node p).arg (t2, w)))
      else some (t1, w)

  -- `size` is the fuel of the walks that `time_event_del` makes.
  unfoldable pub tick : (fuel size : ℕ) → Timer × W → ℕ → Option (Timer × W)
  tick zero size s p = none
  tick (suc fuel) size s p = elim (p == null) [
    | true ↦ some s
    | false ↦ tick_one size s p >>= λ s'. tick fuel size s' (s'.0.node p).next
  ]

  unfoldable pub timer_interrupt : ℕ → Timer × W → Option (Timer × W)
  unfolding tick
  timer_interrupt fuel s = tick fuel fuel s s.0.head
