-- ===== src/Timer/Turn.antt =====
-- What a timer interrupt does to one event of the chain, but for its callback.
use mathlib.Core.Path.{subst}
use eaburns_sos.Prelude.{
  ℕ, ◌≡◌, ◌≢◌, ◌∙◌, refl, Bool, true, false, ◌||◌, not, List, [], ◌∷◌, ◌++◌, arith, ◌==◌,
  if◌then◌else◌, sub32,
}
use eaburns_sos.Timer.{Timer, TimeEvent, null, unlink, set_remaining}
use eaburns_sos.Timer.Chain.{
  Nodes, has, Chain, prev_of, Chain-frame, has-middle, not-has-prefix, erase-middle, prev_of-ne,
}
use eaburns_sos.Timer.Laws.{Chain-unlink}

-- The time of an event comes with this tick.
abbrev pub expires : TimeEvent → Bool
expires v = sub32 v.t_remaining 1 == 0

-- The event stays active: its time has not come, or it repeats.
abbrev pub survives : TimeEvent → Bool
survives v = not (expires v) || not (v.t_interval == 0)

-- the ticks that remain after this one
abbrev pub ticked : TimeEvent → ℕ
ticked v = if expires v then v.t_interval else sub32 v.t_remaining 1

-- two structs that differ at most in `next`
abbrev pub SameParams : TimeEvent → TimeEvent → Type 0
SameParams u v =
    (u.event ≡ v.event)
    × (u.arg ≡ v.arg)
    × (u.t_remaining ≡ v.t_remaining)
    × (u.t_interval ≡ v.t_interval)

-- the events of the chain that stay active
abbrev pub survivors : Nodes → List ℕ → List ℕ
survivors n [] = []
survivors n (x ∷ xs) = if survives (n x) then x ∷ survivors n xs else survivors n xs

pub survivors_of_same :
    (n m : Nodes) (xs : List ℕ)
    → ((a : ℕ) → has a xs ≡ true → SameParams (m a) (n a))
    → survivors m xs ≡ survivors n xs
survivors_of_same n m [] same = refl
survivors_of_same n m (x ∷ xs) same =
    let (e1, e2, e3, e4) = same x (ground arith) in
    rw (e3, e4, survivors_of_same n m xs (λ a i. same a (ground arith)))

pub unlink_params : (t : Timer) (j p a : ℕ) → SameParams ((unlink t j p).node a) (t.node a)
unfolding unlink
unlink_params t j p a = ground arith

pub unlink_next :
    (t : Timer) (j p a : ℕ) → (j == a) ≡ false → ((unlink t j p).node a).next ≡ (t.node a).next
unfolding unlink
unlink_next t j p a h = ground arith

-- What one event's turn leaves: `t'`, where the events `xs'` are active.
pub record Turn (t : Timer) (x : ℕ) (xs' : List ℕ) (t' : Timer) : Type 0 where
  pub chain : Chain t'.node t'.head xs'
  pub next_kept : (t'.node x).next ≡ (t.node x).next
  pub counted : (t'.node x).t_remaining ≡ ticked (t.node x)
  pub others : (a : ℕ) → a ≢ x → SameParams (t'.node a) (t.node a)

pub set_remaining-Turn :
    (t : Timer) (x n : ℕ) (xs : List ℕ)
    → Chain t.node t.head xs
    → n ≡ ticked (t.node x)
    → Turn t x xs (set_remaining t x n)
unfolding set_remaining
set_remaining-Turn t x n xs c e = record {
  chain = Chain-frame t.node (set_remaining t x n).node t.head xs c (λ a i. ground arith);
  next_kept = ground arith;
  counted = ground arith;
  others = λ a ne. ground arith;
}

pub unlink-Turn :
    (t : Timer) (x : ℕ) (ps ys : List ℕ)
    → x ≢ null
    → Chain t.node t.head (ps ++ (x ∷ ys))
    → expires (t.node x) ≡ true
    → (t.node x).t_interval ≡ 0
    → let t1 = set_remaining t x (sub32 (t.node x).t_remaining 1) in
      Turn t x (ps ++ ys) (unlink t1 (prev_of x null (ps ++ (x ∷ ys))) x)
unlink-Turn t x ps ys nx c hit once =
    let t1 = set_remaining t x (sub32 (t.node x).t_remaining 1) in
    let l = ps ++ (x ∷ ys) in
    let r = set_remaining-Turn t x (sub32 (t.node x).t_remaining 1) l c (ground arith) in
    let j = prev_of x null l in
    let ne : (j == x) ≡ false = prev_of-ne x null l (ground arith) (has-middle x ps ys) in
    record {
      chain =
          subst (λ (k : List ℕ). Chain (unlink t1 j x).node (unlink t1 j x).head k)
            (erase-middle x ps ys (not-has-prefix t.node t.head x ps ys c))
            (Chain-unlink t1 x t1.head l refl r.chain (has-middle x ps ys));
      next_kept = unlink_next t1 j x x ne ∙ r.next_kept;
      counted = (unlink_params t1 j x x).2 ∙ r.counted;
      others = λ a na. ground (arith, unlink_params t1 j x a, r.others a na);
    }

pub reset-Turn :
    (t : Timer) (x n : ℕ) (xs : List ℕ)
    → Chain t.node t.head xs
    → expires (t.node x) ≡ true
    → Turn t x xs (set_remaining (set_remaining t x n) x (t.node x).t_interval)
unfolding set_remaining
reset-Turn t x n xs c hit = record {
  chain =
      Chain-frame t.node (set_remaining (set_remaining t x n) x (t.node x).t_interval).node t.head
        xs c (λ a i. ground arith);
  next_kept = ground arith;
  counted = ground arith;
  others = λ a ne. ground arith;
}

pub node-set_remaining :
    (t : Timer) (x n : ℕ) → (set_remaining t x n).node x ≡ record (t.node x) { t_remaining = n }
unfolding set_remaining
node-set_remaining t x n = ground arith
