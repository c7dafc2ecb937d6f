-- ===== src/BinaryHeap.antt =====
-- `std::collections::BinaryHeap<Reverse<E>>`, by its documented behaviour: `pop` takes a least
-- entry away, and which one of several least entries is left open.
pub mod Selection
pub mod PopWhile
use piperine.Common.{◌≡◌, Bool, List, [], ◌∷◌, Option, none, some, SameItems, Every, ℕ, length}
use mathlib.Core.Option

-- `leq a b` stands for `a.cmp(b) != Ordering::Greater`.
pub record BinaryHeap {ℓ} (E : Type ℓ) (leq : E → E → Bool) : Type (ℓ + 1) where
  pub Heap : Type ℓ
  pub new : Heap
  pub push : Heap → E → Heap
  pub pop : Heap → Option (E × Heap)
  -- the entries, in no order that a client may rely on
  pub items : Heap → List E
  pub items-new : items new ≡ []
  pub items-push : (h : Heap) (e : E) → SameItems (items (push h e)) (e ∷ items h)
  pub pop_none : (h : Heap) → pop h ≡ none → items h ≡ []
  pub pop_some : (h h' : Heap) (e : E) → pop h ≡ some (e, h') → SameItems (items h) (e ∷ items h')
  pub pop_least : (h h' : Heap) (e : E) → pop h ≡ some (e, h') → Every (leq e) (items h)

module _ {ℓ} {E : Type ℓ} {leq : E → E → Bool} (H : BinaryHeap E leq) where
  -- `peek` shows what `pop` would take.
  abbrev pub peek : BinaryHeap.Heap H → Option E
  peek h = Option.map (λ t. t.0) (BinaryHeap.pop H h)

  abbrev pub len : BinaryHeap.Heap H → ℕ
  len h = length (BinaryHeap.items H h)
