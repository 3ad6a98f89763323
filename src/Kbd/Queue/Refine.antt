-- ===== src/Kbd/Queue/Refine.antt =====
-- The ring against its specification: a list of at most 100 keys, the oldest first.
use eaburns_sos.Prelude.{
  ℕ, ◌≡◌, refl, List, [], ◌∷◌, ◌++◌, arith, ReturnCode, ret_failure, ret_success, ◌==◌,
  if◌then◌else◌, length, Bool-cases, inl, inr,
}
use eaburns_sos.Kbd.Queue.{KeyQueue, queue_len, enqueue, dequeue}
use eaburns_sos.Kbd.Queue.Laws.{
  IsValid, contents, length-contents, enqueue-IsValid, dequeue-IsValid, contents-enqueue,
  contents-dequeue, dequeue_nil, contents_nil,
}

-- What the interrupt handler asks of the queue, and what it sees.
pub data Op : Type 0 where
  put : ℕ → Op
  get : Op

pub data Reply : Type 0 where
  stored : ReturnCode → Reply
  taken : ℕ → Reply

unfoldable pub spec_put : List ℕ → ℕ → ReturnCode × List ℕ
spec_put l c = if length l == queue_len then (ret_failure, l) else (ret_success, l ++ (c ∷ []))

unfoldable pub spec_get : List ℕ → ℕ × List ℕ
spec_get [] = (0, [])
spec_get (c ∷ l) = (c, l)

unfoldable pub run : KeyQueue → List Op → List Reply
run q [] = []
run q (put c ∷ ops) = let (r, q') = enqueue q c in stored r ∷ run q' ops
run q (get ∷ ops) = let (c, q') = dequeue q in taken c ∷ run q' ops

unfoldable pub spec_run : List ℕ → List Op → List Reply
spec_run l [] = []
spec_run l (put c ∷ ops) = let (r, l') = spec_put l c in stored r ∷ spec_run l' ops
spec_run l (get ∷ ops) = let (c, l') = spec_get l in taken c ∷ spec_run l' ops

enqueue_refines :
    {q : KeyQueue} (c : ℕ)
    → IsValid q
    → let (r, q') = enqueue q c in (r, contents q') ≡ spec_put (contents q) c
unfolding spec_put enqueue
enqueue_refines {q} c v = ground (arith, length-contents q, contents-enqueue c v)

get_of_cons : (l : List ℕ) (c : ℕ) (r : List ℕ) → l ≡ c ∷ r → (c, r) ≡ spec_get l
unfolding spec_get
get_of_cons l c r e = rw e

dequeue_refines :
    {q : KeyQueue} → IsValid q → let (c, q') = dequeue q in (c, contents q') ≡ spec_get (contents q)
unfolding spec_get
dequeue_refines {q} v = elim (Bool-cases (q.count == 0)) [
  | inl e ↦ let z : q.count ≡ 0 = ground arith in rw (dequeue_nil q z, contents_nil q z)
  | inr e ↦ get_of_cons _ _ _ (contents-dequeue v (ground arith))
]

-- No sequence of calls tells the ring from the bounded queue of its contents.
pub run_refines : (ops : List Op) {q : KeyQueue} → IsValid q → run q ops ≡ spec_run (contents q) ops
unfolding run spec_run
run_refines [] v = refl
run_refines (put c ∷ ops) v = rw (run_refines ops (enqueue-IsValid c v), ← enqueue_refines c v)
run_refines (get ∷ ops) v = rw (run_refines ops (dequeue-IsValid v), ← dequeue_refines v)
