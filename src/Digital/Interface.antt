-- ===== src/Digital/Interface.antt =====
-- crates/piperine-solver/src/digital/interface.rs and `DigitalDevice` of
-- crates/piperine-solver/src/core/element.rs: what an element sees, what it emits, and how the
-- scheduler's sink stamps it.
use piperine.Common.{ℕ, ◌+◌, ◌%◌, Bool, List, [], ◌∷◌, ◌||◌, ◌==◌, false}
use piperine.F64.{F64}
use piperine.BinaryHeap.{BinaryHeap}
use piperine.Digital.Logic.{LogicValue}
use piperine.Digital.Event.{DigitalEvent, DigitalNet, event_leq}

pub record EvalCtx (F : F64) : Type 0 where
  pub time : F64.Carrier F
  pub nets : List LogicValue
  pub analog : List (F64.Carrier F)

-- The arguments of one call of `EventSink::emit`.
pub record Emission (F : F64) : Type 0 where
  pub net : DigitalNet
  pub value : LogicValue
  pub delay : F64.Carrier F

-- `dyn Element`, on the digital side: the trait's methods over the state `S` of an element. A method
-- that takes `&mut self` returns the new state, and one that takes a sink returns its calls in order.
pub record Element (F : F64) (S : Type 0) : Type 0 where
  pub inputs : S → List DigitalNet
  pub outputs : S → List DigitalNet
  pub init : S → S × List (Emission F)
  pub seq_phase : EvalCtx F → S → S × Bool
  pub comb_phase : EvalCtx F → S → S × List (Emission F)
  -- `capabilities().contains(ElementCapabilities::DIGITAL)`
  pub is_digital : S → Bool

-- `changed.contains(n)` on the set of changed nets.
unfoldable pub contains_net : List DigitalNet → DigitalNet → Bool
contains_net [] n = false
contains_net (m ∷ ms) n = m == n || contains_net ms n

-- `inputs.iter().any(|n| changed.contains(n))`
unfoldable pub any_changed : List DigitalNet → List DigitalNet → Bool
any_changed [] changed = false
any_changed (n ∷ ns) changed = contains_net changed n || any_changed ns changed

unfoldable pub has_input_on : {F : F64} {S : Type 0} → Element F S → S → List DigitalNet → Bool
has_input_on E s changed = any_changed (E.inputs s) changed

module _ {F : F64} (H : BinaryHeap (DigitalEvent F) (event_leq F)) where
  -- `QueueSink::emit`; the counter is a `u64`.
  unfoldable pub emit :
      BinaryHeap.Heap H → F64.Carrier F → ℕ → ℕ → Emission F → BinaryHeap.Heap H × ℕ
  emit queue base_time source seq e = (
    H.push queue (record {
      time = F64.add F base_time e.delay;
      net = e.net;
      value = e.value;
      source = source;
      seq = seq;
    }),
    (seq + 1) % 18_446_744_073_709_551_616,
  )

  -- The calls of one evaluation.
  unfoldable pub emit_all :
      BinaryHeap.Heap H → F64.Carrier F → ℕ → ℕ → List (Emission F) → BinaryHeap.Heap H × ℕ
  emit_all queue base_time source seq [] = (queue, seq)
  emit_all queue base_time source seq (e ∷ es) =
      let (queue', seq') = emit queue base_time source seq e in
      emit_all queue' base_time source seq' es
