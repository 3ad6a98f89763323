-- ===== src/Timer/Chain.antt =====
-- The chain of active events as a list of addresses.
use eaburns_sos.Prelude.{
  ℕ, zero, suc, ◌<◌, ◌≡◌, ◌≢◌, true, false, List, [], ◌∷◌, ◌++◌, arith, ◌==◌, if◌then◌else◌, length,
  some,
}
use eaburns_sos.Prelude.Chain.{
  Links, Links-frame, Links-first, Links-drop, Links-relink, prev_of-Links, has-null-Links,
  has_prefix-Links,
}
use eaburns_sos.Timer.{Timer, TimeEvent, null, find}
pub use eaburns_sos.Prelude.Chain.{
  has, erase, prev_of, first, erase_self, has-middle, erase-middle, prev_of-ne,
}

abbrev pub Nodes : Type 0
Nodes = ℕ → TimeEvent

abbrev nexts : Nodes → ℕ → ℕ
nexts n a = (n a).next

-- From `p` the `next` pointers lead through the distinct events `xs` to NULL.
abbrev pub Chain : Nodes → ℕ → List ℕ → Type 0
Chain n p xs = Links (nexts n) p xs

pub Chain-frame :
    (n m : Nodes) (p : ℕ) (xs : List ℕ)
    → Chain n p xs
    → ((a : ℕ) → has a xs ≡ true → (m a).next ≡ (n a).next)
    → Chain m p xs
Chain-frame n m = Links-frame (nexts n) (nexts m)

-- With one more round than events the walk ends, at `e` if it is in the chain and at NULL if not.
pub find_lem :
    (fuel : ℕ) (t : Timer) (e j p : ℕ) (xs : List ℕ)
    → e ≢ null
    → Chain t.node p xs
    → length xs < fuel
    → find fuel t e j p ≡ some (prev_of e j xs, if has e xs then e else null)
unfolding find
find_lem zero t e j p xs ne c h = absurd (omega arith)
find_lem (suc fuel) t e j p [] ne c h = ground arith
find_lem (suc fuel) t e j p (x ∷ xs) ne (q, nx, out, c) h =
    ground (arith, find_lem fuel t e x (t.node x).next xs ne c)

-- Linking the event before `e` to the one after it takes `e` out of the chain.
pub relink :
    (n m : Nodes) (e p x : ℕ) (xs : List ℕ)
    → Chain n p (x ∷ xs)
    → has e xs ≡ true
    → ((a : ℕ) → (m a).next ≡ (if a == prev_of e x xs then (n e).next else (n a).next))
    → Chain m p (x ∷ erase e xs)
relink n m = Links-relink (nexts n) (nexts m)

pub not-has-null : (n : Nodes) (p : ℕ) (xs : List ℕ) → Chain n p xs → has null xs ≡ false
not-has-null n = has-null-Links (nexts n)

pub prev_of-ne_null :
    (n : Nodes) (e p x : ℕ) (xs : List ℕ) → Chain n p (x ∷ xs) → (prev_of e x xs == null) ≡ false
prev_of-ne_null n = prev_of-Links (nexts n)

pub Chain-first : (n : Nodes) (p : ℕ) (xs : List ℕ) → Chain n p xs → p ≡ first xs
Chain-first n = Links-first (nexts n)

-- the chain from a point on
pub Chain-drop : (n : Nodes) (p : ℕ) (ps xs : List ℕ) → Chain n p (ps ++ xs) → Chain n (first xs) xs
Chain-drop n = Links-drop (nexts n)

pub not-has-prefix :
    (n : Nodes) (p x : ℕ) (ps ys : List ℕ) → Chain n p (ps ++ (x ∷ ys)) → has x ps ≡ false
not-has-prefix n = has_prefix-Links (nexts n)
