-- ===== src/Kbd/Queue/Laws.antt =====
-- The ring of kernel/dev/bcon_kbd.c as a bounded first-in first-out queue.
use mathlib.Core.Path.{ap₂}
use eaburns_sos.Prelude.{
  ℕ, zero, suc, ◌+◌, ◌-◌, ◌%◌, ◌≤◌, ◌<◌, ◌≡◌, ◌≢◌, refl, ap, List, [], ◌∷◌, ◌++◌, arith, ◌==◌,
  if◌then◌else◌, length, get_or, set, length-set, get_or-set_self, get_or-set_ne,
}
use eaburns_sos.Kbd.Queue.{KeyQueue, queue_len, enqueue, dequeue, input_queue_head}

-- What holds of the queue between two calls.
pub record IsValid (q : KeyQueue) : Type 0 where
  pub storage : length q.keys ≡ queue_len
  pub head_in : q.head < queue_len
  pub count_in : q.count ≤ queue_len
  pub tail_at : q.tail ≡ (q.head + q.count) % queue_len

-- the `n` keys from index `h` on, going round at the end of the array
abbrev pub window : List ℕ → ℕ → ℕ → List ℕ
window keys h zero = []
window keys h (suc n) = get_or keys h 0 ∷ window keys ((h + 1) % queue_len) n

-- the keys that the queue holds, the oldest first
abbrev pub contents : KeyQueue → List ℕ
contents q = window q.keys q.head q.count

length-window : (keys : List ℕ) (h n : ℕ) → length (window keys h n) ≡ n
length-window keys h zero = refl
length-window keys h (suc n) = ap suc (length-window keys ((h + 1) % queue_len) n)

pub length-contents : (q : KeyQueue) → length (contents q) ≡ q.count
length-contents q = length-window q.keys q.head q.count

window_of_ne_zero :
    (keys : List ℕ) (h n : ℕ)
    → n ≢ 0
    → window keys h n ≡ get_or keys h 0 ∷ window keys ((h + 1) % queue_len) (n - 1)
window_of_ne_zero keys h zero p = absurd (p refl)
window_of_ne_zero keys h (suc n) p = ap (λ k. window keys h (suc k)) (omega arith)

-- A write just past a window extends it by that key.
window-set :
    (keys : List ℕ) (c n h i : ℕ)
    → length keys ≡ queue_len
    → h < queue_len
    → n < queue_len
    → i ≡ (h + n) % queue_len
    → window (set keys i c) h (suc n) ≡ window keys h n ++ (c ∷ [])
window-set keys c zero h i hs hh hn e =
    let e' : i ≡ h = omega arith in rw (e', get_or-set_self keys h c 0 (omega arith))
window-set keys c (suc n) h i hs hh hn e =
    ap₂ ◌∷◌ (get_or-set_ne keys c 0 (λ p. omega arith))
      (window-set keys c n ((h + 1) % queue_len) i hs (omega arith) (omega arith) (omega arith))

module _ {q : KeyQueue} where
  pub enqueue-IsValid : (c : ℕ) → IsValid q → IsValid (enqueue q c).1
  unfolding enqueue
  enqueue-IsValid c v = ground (arith, length-set q.keys q.tail c)

  pub dequeue-IsValid : IsValid q → IsValid (dequeue q).1
  unfolding dequeue
  dequeue-IsValid v = ground arith

  -- A key is added at the end, if there is room.
  pub contents-enqueue :
      (c : ℕ)
      → IsValid q
      → contents (enqueue q c).1
        ≡ (if q.count == queue_len then contents q else contents q ++ (c ∷ []))
  unfolding enqueue
  contents-enqueue c v = ground (arith, window-set q.keys c q.count q.head q.tail)

  -- The oldest key is taken.
  pub contents-dequeue :
      IsValid q → q.count ≢ 0 → contents q ≡ (dequeue q).0 ∷ contents (dequeue q).1
  unfolding dequeue
  contents-dequeue v ne = ground (arith, window_of_ne_zero q.keys q.head q.count)

  -- Reading the head through `bcon_input_queue_head` leaves the count as it was, so a queue that
  -- holds a key is no longer well formed after it.
  pub not-IsValid-input_queue_head : IsValid q → q.count ≢ 0 → ¬ IsValid (input_queue_head q).1
  unfolding input_queue_head
  not-IsValid-input_queue_head v ne w = ground arith

pub dequeue_nil : (q : KeyQueue) → q.count ≡ 0 → dequeue q ≡ (0, q)
unfolding dequeue
dequeue_nil q e = rw e

pub contents_nil : (q : KeyQueue) → q.count ≡ 0 → contents q ≡ []
contents_nil q e = rw e
