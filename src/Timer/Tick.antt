-- ===== src/Timer/Tick.antt =====
-- One timer interrupt, when the callbacks leave the timer alone.
use mathlib.Core.Path.{subst}
use eaburns_sos.Prelude.{
  ◌>>=◌, ℕ, zero, suc, ◌<◌, ◌≡◌, ◌≢◌, ◌∙◌, refl, ap, true, false, List, [], ◌∷◌, ◌++◌, arith, ◌==◌,
  if◌then◌else◌, length, length-append, Bool-cases, inl, inr, Option, some, sub32, ==_iff,
}
use mathlib.Core.List.{append_assoc}
use eaburns_sos.Timer.{Timer, null, unlink, set_remaining, expire, tick_one, tick, timer_interrupt}
use eaburns_sos.Timer.Chain.{Nodes, has, Chain, prev_of, first, Chain-first, Chain-drop, has-middle}
use eaburns_sos.Timer.Laws.{del_eq}
use eaburns_sos.Timer.Turn.{
  expires, survives, ticked, SameParams, survivors, survivors_of_same, unlink_params, Turn,
  set_remaining-Turn, unlink-Turn, reset-Turn, node-set_remaining,
}

-- The callbacks act on the rest of the kernel only, by `act`.
module _ {W : Type 0} (call : (event arg : ℕ) → Timer × W → Timer × W) (act : ℕ → ℕ → W → W)
    (quiet : (event arg : ℕ) (t : Timer) (w : W)
      → call event arg (t, w) ≡ (t, act event arg w)) where
  -- the callbacks of the expired events, in the order of the chain
  abbrev pub world : Nodes → List ℕ → W → W
  world n [] w = w
  world n (x ∷ xs) w = world n xs (if expires (n x) then act (n x).event (n x).arg w else w)

  abbrev after_one : Timer → ℕ → W → W
  after_one t x w = if expires (t.node x) then act (t.node x).event (t.node x).arg w else w

  tick_one_wait :
      (size : ℕ) (t : Timer) (w : W) (x : ℕ)
      → expires (t.node x) ≡ false
      → tick_one call size (t, w) x ≡ some (set_remaining t x (sub32 (t.node x).t_remaining 1), w)
  unfolding tick_one
  tick_one_wait size t w x h = rw (node-set_remaining t x (sub32 (t.node x).t_remaining 1)) (rw h)

  tick_one_reset :
      (size : ℕ) (t : Timer) (w : W) (x : ℕ)
      → expires (t.node x) ≡ true
      → (t.node x).t_interval ≢ 0
      → tick_one call size (t, w) x
        ≡ some (
          set_remaining
              (set_remaining t x (sub32 (t.node x).t_remaining 1))
              x
              (t.node x).t_interval,
          act (t.node x).event (t.node x).arg w,
        )
  unfolding tick_one expire
  tick_one_reset size t w x h ne =
      let n = sub32 (t.node x).t_remaining 1 in
      let i : ((t.node x).t_interval == 0) ≡ false = ground arith in
      rw (node-set_remaining t x n) (
        rw h (
          rw i (
            rw (node-set_remaining (set_remaining t x n) x (t.node x).t_interval)
              (rw (node-set_remaining t x n) (rw quiet)))))

  tick_one_once :
      (size : ℕ) (t : Timer) (w : W) (x : ℕ) (l : List ℕ)
      → expires (t.node x) ≡ true
      → (t.node x).t_interval ≡ 0
      → x ≢ null
      → Chain t.node t.head l
      → has x l ≡ true
      → length l < size
      → tick_one call size (t, w) x
        ≡ some (
          unlink (set_remaining t x (sub32 (t.node x).t_remaining 1)) (prev_of x null l) x,
          act (t.node x).event (t.node x).arg w,
        )
  unfolding tick_one expire
  tick_one_once size t w x l h e nx c i enough =
      let n = sub32 (t.node x).t_remaining 1 in
      let t1 = set_remaining t x n in
      let r = set_remaining-Turn t x n l c (ground arith) in
      let i' : ((t.node x).t_interval == 0) ≡ true = ground arith in
      rw (node-set_remaining t x n) (
        rw h (
          rw i' (
            rw (del_eq size t1 x l nx r.chain enough) (
              rw i (
                rw ((unlink_params t1 (prev_of x null l) x x).0) (
                  rw ((unlink_params t1 (prev_of x null l) x x).1)
                    (rw (node-set_remaining t x n) (rw quiet))))))))

  -- The turn of one event, whichever of the three happens.
  tick_one_lem :
      (size : ℕ) (t : Timer) (w : W) (x : ℕ) (ps ys : List ℕ)
      → x ≢ null
      → Chain t.node t.head (ps ++ (x ∷ ys))
      → length (ps ++ (x ∷ ys)) < size
      → (t' : Timer) × (tick_one call size (t, w) x ≡ some (t', after_one t x w))
        × Turn t x (if survives (t.node x) then ps ++ (x ∷ ys) else ps ++ ys) t'
  tick_one_lem size t w x ps ys nx c enough =
      let n = sub32 (t.node x).t_remaining 1 in
      let t1 = set_remaining t x n in
      let l = ps ++ (x ∷ ys) in
      elim (Bool-cases (expires (t.node x))) [
        | inr h ↦
            (t1, tick_one_wait size t w x h ∙ rw h, rw h (set_remaining-Turn t x n l c (rw h)))
        | inl h ↦ elim (Bool-cases ((t.node x).t_interval == 0)) [
          | inl i ↦
              let z : (t.node x).t_interval ≡ 0 = (==_iff _ _).0 i in
              (
                unlink t1 (prev_of x null l) x,
                tick_one_once size t w x l h z nx c (has-middle x ps ys) enough ∙ rw h,
                rw (h, i) (unlink-Turn t x ps ys nx c h z),
              )
          | inr i ↦ (
            set_remaining t1 x (t.node x).t_interval,
            tick_one_reset size t w x h (ground arith) ∙ rw h,
            rw (h, i) (reset-Turn t x n l c h),
          )
        ]
      ]

  world_of_same :
      (n m : Nodes) (xs : List ℕ) (w : W)
      → ((a : ℕ) → has a xs ≡ true → SameParams (m a) (n a))
      → world m xs w ≡ world n xs w
  world_of_same n m [] w same = refl
  world_of_same n m (x ∷ xs) w same =
      let (e1, e2, e3, e4) = same x (ground arith) in
      rw (e1, e2, e3) (world_of_same n m xs _ (λ a i. same a (ground arith)))

  -- What the walk over the events `xs`, behind the events `ps`, leaves.
  record Walked (t : Timer) (w : W) (ps xs : List ℕ) (r : Option (Timer × W)) : Type 0 where
    final : Timer
    result : r ≡ some (final, world t.node xs w)
    chain : Chain final.node final.head (ps ++ survivors t.node xs)
    counted :
        (a : ℕ)
        → (final.node a).t_remaining
          ≡ (if has a xs then ticked (t.node a) else (t.node a).t_remaining)

  tick_step :
      (fuel size : ℕ) (s : Timer × W) (p : ℕ)
      → (p == null) ≡ false
      → tick call (suc fuel) size s p
        ≡ (tick_one call size s p >>= λ s'. tick call fuel size s' (s'.0.node p).next)
  unfolding tick
  tick_step fuel size s p h = rw (h, tick)

  Walked-cons :
      (fuel size : ℕ) (t t1 : Timer) (w : W) (x : ℕ) (xs' ps ps' ys : List ℕ)
      → x ≢ null
      → has x ys ≡ false
      → tick_one call size (t, w) x ≡ some (t1, after_one t x w)
      → (t.node x).next ≡ first ys
      → Turn t x xs' t1
      → ps' ++ survivors t.node ys ≡ ps ++ survivors t.node (x ∷ ys)
      → Walked t1 (after_one t x w) ps' ys (tick call fuel size (t1, after_one t x w) (first ys))
      → Walked t w ps (x ∷ ys) (tick call (suc fuel) size (t, w) x)
  Walked-cons fuel size t t1 w x xs' ps ps' ys nx out one next turn joined rest =
      let live : (x == null) ≡ false = ground arith in
      let same : (a : ℕ) → has a ys ≡ true → SameParams (t1.node a) (t.node a) =
        λ a i. turn.others a (λ e. ground arith) in
      record {
        final = rest.final;
        result =
            rw (tick_step fuel size (t, w) x live, one)
              (rw (turn.next_kept ∙ next) (
                rest.result
                ∙ ap (λ v. some (rest.final, v))
                    (world_of_same t.node t1.node ys (after_one t x w) same)));
        chain =
            subst (λ (l : List ℕ). Chain rest.final.node rest.final.head l)
              (ap (λ l. ps' ++ l) (survivors_of_same t.node t1.node ys same) ∙ joined) rest.chain;
        counted = λ a. ground (arith, rest.counted a, turn.others a, turn.counted);
      }

  tick_lem :
      (fuel size : ℕ) (t : Timer) (w : W) (ps xs : List ℕ)
      → Chain t.node t.head (ps ++ xs)
      → length (ps ++ xs) < size
      → length xs < fuel
      → Walked t w ps xs (tick call fuel size (t, w) (first xs))
  tick_lem zero size t w ps xs c enough h = absurd (omega arith)
  tick_lem (suc fuel) size t w ps [] c enough h = record {
    final = t;
    result = unfold tick in refl;
    chain = c;
    counted = λ a. refl;
  }
  tick_lem (suc fuel) size t w ps (x ∷ ys) c enough h =
      let (q, nx, out, tail) = Chain-drop t.node t.head ps (x ∷ ys) c in
      let (t1, one, turn) = tick_one_lem size t w x ps ys nx c enough in
      let next = Chain-first t.node (t.node x).next ys tail in
      elim (Bool-cases (survives (t.node x))) [
        | inl s ↦
            let assoc : (zs : List ℕ) → (ps ++ (x ∷ [])) ++ zs ≡ ps ++ (x ∷ zs) =
              λ zs. append_assoc ps (x ∷ []) zs in
            let all = if survives (t.node x) then ps ++ (x ∷ ys) else ps ++ ys in
            let c1 : Chain t1.node t1.head ((ps ++ (x ∷ [])) ++ ys) =
              rw (assoc ys) (rw s at turn.chain) in
            Walked-cons fuel size t t1 w x all ps (ps ++ (x ∷ [])) ys nx out one next turn
              (assoc (survivors t.node ys) ∙ rw s)
              (tick_lem fuel size t1 (after_one t x w) (ps ++ (x ∷ [])) ys c1 (rw (assoc ys) enough)
                (omega arith))
        | inr s ↦
            let all = if survives (t.node x) then ps ++ (x ∷ ys) else ps ++ ys in
            Walked-cons fuel size t t1 w x all ps ps ys nx out one next turn (rw s) (
              tick_lem fuel size t1 (after_one t x w) ps ys (rw s at turn.chain)
                (omega (arith, length-append ps ys, length-append ps (x ∷ ys))) (omega arith))
      ]

  -- A timer interrupt, when every callback leaves the timer alone: with fuel for the active events
  -- it ends; exactly the events with one tick left have their callbacks run, in the order of the
  -- chain; of those the ones that do not repeat leave the chain and the others start again at their
  -- interval; every other active event has one tick less, and an inactive one keeps its ticks.
  pub timer_interrupt_lem :
      (fuel : ℕ) (t : Timer) (w : W) (xs : List ℕ)
      → Chain t.node t.head xs
      → length xs < fuel
      → (t' : Timer) × (timer_interrupt call fuel (t, w) ≡ some (t', world t.node xs w))
        × Chain t'.node t'.head (survivors t.node xs)
        × ((a : ℕ)
            → (t'.node a).t_remaining
              ≡ (if has a xs then ticked (t.node a) else (t.node a).t_remaining))
  unfolding timer_interrupt
  timer_interrupt_lem fuel t w xs c h =
      let r = tick_lem fuel fuel t w [] xs c h h in
      (
        r.final,
        ap (λ p. tick call fuel fuel (t, w) p) (Chain-first t.node t.head xs c) ∙ r.result,
        r.chain,
        r.counted,
      )
