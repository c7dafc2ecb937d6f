-- ===== src/Digital/State.antt =====
-- `DigitalState` of crates/piperine-solver/src/digital/state.rs: net values, the event queue, the
-- labels of the nets, and a one-deep checkpoint. Its `BinaryHeap` is the parameter `H`.
pub mod Labels
use mathlib.Core.Option
use piperine.Common.{
  ℕ, zero, suc, ◌+◌, ◌-◌, ◌≡◌, Bool, true, false, List, [], ◌∷◌, ◌++◌, Option, none, some, length,
  get_elem?, set, replicate, if◌then◌else◌, leb, ◌==◌, Text, decimal,
}
use piperine.F64.{F64}
use piperine.BinaryHeap.{BinaryHeap, peek}
use piperine.Digital.Logic.{LogicValue}
use piperine.Digital.Event.{DigitalEvent, DigitalNet, event_leq}

pub record Checkpoint {F : F64} (H : BinaryHeap (DigitalEvent F) (event_leq F)) : Type 0 where
  pub nets : List LogicValue
  pub queue : BinaryHeap.Heap H
  pub labels : List Text

pub record DigitalState {F : F64} (H : BinaryHeap (DigitalEvent F) (event_leq F)) : Type 0 where
  pub nets : List LogicValue
  pub event_queue : BinaryHeap.Heap H
  pub labels : List Text
  pub checkpoint : Option (Checkpoint H)

-- `format!("d{n}")`
unfoldable pub anonymous : ℕ → Text
anonymous n = b'd' ∷ decimal n

-- `Vec::resize`, which is only called to grow.
unfoldable pub resize : ℕ → Text → List Text → List Text
resize n fill xs = xs ++ replicate (n - length xs) fill

-- `set_label` on the field `labels`.
unfoldable pub write_label : List Text → ℕ → Text → List Text
unfolding resize
write_label labels idx label =
    let grown =
      if leb (length labels) idx
      then resize (idx + 1) (anonymous (length labels)) labels
      else labels in
    set grown idx label

-- The arms of `label_or_default`.
unfoldable pub label_text : ℕ → Option Text → Text
label_text idx none = anonymous idx
label_text idx (some []) = anonymous idx
label_text idx (some (c ∷ cs)) = c ∷ cs

-- `label_or_default` on the field `labels`.
unfoldable pub read_label : List Text → ℕ → Text
read_label labels idx = label_text idx (get_elem? labels idx)

module _ {F : F64} (H : BinaryHeap (DigitalEvent F) (event_leq F)) where
  unfoldable pub new : ℕ → DigitalState H
  new num_nets = record {
    nets = replicate num_nets LogicValue.x;
    event_queue = H.new;
    labels = [];
    checkpoint = none;
  }

  -- `none` is the failed assertion on the number of labels.
  unfoldable pub with_labels : ℕ → List Text → Option (DigitalState H)
  with_labels num_nets labels =
      if length labels == num_nets then some (record (new num_nets) { labels = labels }) else none

  unfoldable pub set_label : DigitalState H → DigitalNet → Text → DigitalState H
  set_label s net label = record s { labels = write_label s.labels net label }

  unfoldable pub label_or_default : DigitalState H → DigitalNet → Text
  label_or_default s net = read_label s.labels net

  unfoldable pub schedule : DigitalState H → DigitalEvent F → DigitalState H
  schedule s event = record s { event_queue = H.push s.event_queue event }

  unfoldable pub peek_next_event_time : DigitalState H → F64.Carrier F
  peek_next_event_time s = elim (peek H s.event_queue) [ none ↦ F64.infinity F | some e ↦ e.time ]

  unfoldable pub checkpoint : DigitalState H → DigitalState H
  checkpoint s = record s {
    checkpoint = some (record { nets = s.nets; queue = s.event_queue; labels = s.labels });
  }

  unfoldable pub rollback : DigitalState H → DigitalState H
  rollback s = elim s.checkpoint [
    | none ↦ s
    | some chk ↦ record {
      nets = chk.nets;
      event_queue = chk.queue;
      labels = chk.labels;
      checkpoint = none;
    }
  ]

  unfoldable pub commit : DigitalState H → DigitalState H
  commit s = record s { checkpoint = none }
