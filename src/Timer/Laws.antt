-- ===== src/Timer/Laws.antt =====
-- Adding, removing and setting timed events, on the chain of the active ones.
use mathlib.Core.Path.{subst₂}
use eaburns_sos.Prelude.{
  sym, ℕ, ◌<◌, ◌≡◌, ◌≢◌, ◌⊎◌, ◌∙◌, refl, true, false, List, [], ◌∷◌, arith, ◌==◌, if◌then◌else◌,
  length, Bool-cases, inl, inr, some,
}
use eaburns_sos.Timer.{
  Timer, null, unlink, set_next, store, link, fresh, time_event_set, time_event_del, time_event_add,
}
use eaburns_sos.Timer.Chain.{
  has, not-has-null, erase_self, prev_of-ne_null, Chain, erase, prev_of, Chain-frame, find_lem,
  relink,
}

next-set_next :
    (t : Timer) (p q a : ℕ)
    → ((set_next t p q).node a).next ≡ (if a == p then q else (t.node a).next)
unfolding set_next
next-set_next t p q a = ground arith

unlink_head : (t : Timer) (p : ℕ) → unlink t null p ≡ record t { head = (t.node t.head).next }
unfolding unlink
unlink_head t p = refl

unlink_inner :
    (t : Timer) (j p : ℕ) → (j == null) ≡ false → unlink t j p ≡ set_next t j (t.node p).next
unfolding unlink
unlink_inner t j p h = rw h

head-set_next : (t : Timer) (p q : ℕ) → (set_next t p q).head ≡ t.head
unfolding set_next
head-set_next t p q = refl

-- Unlinking an event of the chain erases it.
pub Chain-unlink :
    (t : Timer) (e p : ℕ) (xs : List ℕ)
    → p ≡ t.head
    → Chain t.node p xs
    → has e xs ≡ true
    → let t' = unlink t (prev_of e null xs) e in Chain t'.node t'.head (erase e xs)
Chain-unlink t e p [] hp c h = absurd (cc)
Chain-unlink t e p (x ∷ xs) hp (q, nx, out, c) h = elim (Bool-cases (x == e)) [
  | inl found ↦ let e' : t.head ≡ x = ground arith in rw found (rw (unlink_head t e) (rw e' c))
  | inr other ↦
      let u = set_next t (prev_of e x xs) (t.node e).next in
      let c' : Chain t.node u.head (x ∷ xs) = (head-set_next t _ _ ∙ sym hp ∙ q, nx, out, c) in
      let j = prev_of-ne_null t.node e u.head x xs c' in
      let linked : unlink t (prev_of e null (x ∷ xs)) e ≡ u =
        rw other (unlink_inner t (prev_of e x xs) e j) in
      let erased : erase e (x ∷ xs) ≡ x ∷ erase e xs = rw other in
      subst₂ (λ (v : Timer) l. Chain v.node v.head l) (sym linked) (sym erased)
        (relink t.node u.node e u.head x xs c' (ground arith)
          (next-set_next t (prev_of e x xs) (t.node e).next))
]

head-link : (t : Timer) (e : ℕ) → (link t e).head ≡ e
unfolding link
head-link t e = refl

next-link :
    (t : Timer) (e a : ℕ)
    → a ≢ null
    → e ≢ null
    → ((link t e).node a).next ≡ (if a == e then t.head else (t.node a).next)
unfolding link
next-link t e a na ne = ground arith

-- Linking an event in front of a chain that does not hold it.
Chain-link :
    (t : Timer) (e : ℕ) (xs : List ℕ)
    → e ≢ null
    → Chain t.node t.head xs
    → has e xs ≡ false
    → Chain (link t e).node (link t e).head (e ∷ xs)
Chain-link t e xs ne c h =
    let here : ((link t e).node e).next ≡ t.head = ground (arith, next-link t e e) in
    (
      head-link t e,
      ne,
      h,
      rw here (
          Chain-frame t.node (link t e).node t.head xs c
            (λ a i. ground (arith, next-link t e a, not-has-null t.node t.head xs c))),
    )

module _ (fuel : ℕ) (t : Timer) (e : ℕ) (xs : List ℕ) (ne : e ≢ null) (c : Chain t.node t.head xs)
    (enough : length xs < fuel) where
  pub del_eq :
      time_event_del fuel t e ≡ some (if has e xs then unlink t (prev_of e null xs) e else t)
  unfolding time_event_del
  del_eq = rw (find_lem fuel t e null t.head xs ne c enough) (ground arith)

  -- `time_event_del` takes an active event out of the chain and leaves the others in their order;
  -- if the event is not active, nothing changes.
  pub time_event_del_lem :
      (t' : Timer) × (time_event_del fuel t e ≡ some t')
      × Chain t'.node t'.head (erase e xs)
      × ((has e xs ≡ true) ⊎ (t' ≡ t))
  time_event_del_lem = elim (Bool-cases (has e xs)) [
    | inl h ↦
        (unlink t (prev_of e null xs) e, del_eq ∙ rw h, Chain-unlink t e t.head xs refl c h, inl h)
    | inr h ↦ (t, del_eq ∙ rw h, rw (erase_self e xs h) c, inr refl)
  ]

  -- `time_event_add` puts an event that is not active at the front of the chain; if it is active,
  -- nothing changes.
  pub time_event_add_lem :
      (t' : Timer) × (time_event_add fuel t e ≡ some t')
      × Chain t'.node t'.head (if has e xs then xs else e ∷ xs)
  unfolding time_event_add
  time_event_add_lem = elim (Bool-cases (has e xs)) [
    | inl h ↦ (t, rw (find_lem fuel t e null t.head xs ne c enough, h) (ground arith), rw h c)
    | inr h ↦ (
      link t e,
      rw (find_lem fuel t e null t.head xs ne c enough, h) (ground arith),
      rw h (Chain-link t e xs ne c h),
    )
  ]

  -- `time_event_set` fills in an event that is not active, with no interval unless it repeats, and
  -- leaves the chain alone; if it is active, nothing changes.
  pub time_event_set_lem :
      (interval repeat funct arg : ℕ)
      → (t' : Timer) × (time_event_set fuel t e interval repeat funct arg ≡ some t')
        × Chain t'.node t'.head xs
        × (t'.node e ≡ (if has e xs then t.node e else fresh interval repeat funct arg))
  unfolding time_event_set
  time_event_set_lem interval repeat funct arg = elim (Bool-cases (has e xs)) [
    | inl h ↦ (t, rw (find_lem fuel t e null t.head xs ne c enough, h) (ground arith), c, rw h)
    | inr h ↦ (
      store t e (fresh interval repeat funct arg),
      rw (find_lem fuel t e null t.head xs ne c enough, h) (ground arith),
      Chain-frame t.node (store t e (fresh interval repeat funct arg)).node t.head xs c
          (λ a i. ground arith),
      rw h (ground arith),
    )
  ]
