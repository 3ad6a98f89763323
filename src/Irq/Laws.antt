-- ===== src/Irq/Laws.antt =====
-- The callback table as a map from interrupt lines to callbacks.
use eaburns_sos.Prelude.{
  ℕ, ◌<◌, ◌≤◌, ◌≡◌, refl, Option, none, some, arith, get_elem?, set, length, ◌==◌, if◌then◌else◌,
  length-set, get_elem?-set_self, get_elem?-set_ne, zero, suc, [], ◌∷◌,
}
use eaburns_sos.Irq.{Irqs, bind_irq, interrupt_irq, wild, call, max_irq_num}

get_elem?-le : (t : Irqs) (i : ℕ) → length t ≤ i → get_elem? t i ≡ none
get_elem?-le [] i h = refl
get_elem?-le (x ∷ t) zero h = absurd (omega arith)
get_elem?-le (x ∷ t) (suc i) h = get_elem?-le t i (omega arith)

get_elem?-set :
    (t : Irqs) (i j : ℕ) (v : Option ℕ)
    → i < length t
    → get_elem? (set t i v) j ≡ (if i == j then some v else get_elem? t j)
get_elem?-set t i j v h =
    ground (arith, get_elem?-set_self t i v h, get_elem?-set_ne t {i = i} {j = j} v)

-- Binding a line below MAX_IRQ_NUM succeeds and makes that line call the handler; every other
-- line dispatches as before, and the table keeps its length.
pub interrupt_irq-bind_irq :
    (t : Irqs) (num line f : ℕ)
    → length t ≡ max_irq_num
    → num < max_irq_num
    → (t' : Irqs) × (bind_irq t num (some f) ≡ some t')
      × (length t' ≡ max_irq_num)
      × (interrupt_irq t' line ≡ (if num == line then call f else interrupt_irq t line))
unfolding bind_irq interrupt_irq
interrupt_irq-bind_irq t num line f e h = (
  set t num (some f),
  ground arith,
  ground (arith, length-set t num (some f)),
  ground (arith, get_elem?-set t num line (some f)),
)

-- Line 15, the last one of the second controller, lies past the table: it can neither be bound nor
-- dispatched.
pub irq_fifteen_wild :
    (t : Irqs) (handler : Option ℕ)
    → length t ≡ max_irq_num
    → (bind_irq t 15 handler ≡ none) × (interrupt_irq t 15 ≡ wild)
unfolding bind_irq interrupt_irq
irq_fifteen_wild t handler e = (ground arith, rw (get_elem?-le t 15 (omega arith), interrupt_irq))
