-- ===== src/EventQueue/Queue.antt =====
-- `EventQueue` and its operations. Its `BinaryHeap<Reverse<EventEntry>>` is the parameter `H`.
use Prim.Native.String.{String}
use piperine.Common.{
  ℕ, zero, suc, Bool, not, List, [], ◌∷◌, ◌++◌, Option, none, some, if◌then◌else◌, leb, retain,
  contains,
}
use piperine.F64.{F64}
use piperine.BinaryHeap.{BinaryHeap, peek, len}
use piperine.Digital.Event.{DigitalEvent}
use piperine.EventQueue.Kinds.{RollbackBehavior, rollback_eq}
use piperine.EventQueue.Entry.{EventEntry, entry_eq, entry_leq}
use piperine.EventQueue.Entry

-- `drained_since` lists the entries drained since the checkpoint, oldest first.
pub record Checkpoint {F : F64} (H : BinaryHeap (EventEntry F) (entry_leq F)) : Type 0 where
  pub heap : BinaryHeap.Heap H
  pub drained_since : List (EventEntry F)

pub record EventQueue {F : F64} (H : BinaryHeap (EventEntry F) (entry_leq F)) : Type 0 where
  pub heap : BinaryHeap.Heap H
  pub checkpoint : Option (Checkpoint H)

module _ {F : F64} (H : BinaryHeap (EventEntry F) (entry_leq F)) where
  open F use {Carrier, key}
  open H use {Heap, items, pop}

  unfoldable pub new : EventQueue H
  new = record { heap = H.new; checkpoint = none }

  unfoldable pub push : EventQueue H → EventEntry F → EventQueue H
  push q entry = record q { heap = H.push q.heap entry }

  unfoldable pub push_digital_event : EventQueue H → DigitalEvent F → String → EventQueue H
  push_digital_event q event source_label =
      push q (Entry.digital F event.time event.net source_label)

  unfoldable pub push_breakpoint : EventQueue H → Carrier → ℕ → String → EventQueue H
  push_breakpoint q time source_index source_label =
      push q (Entry.breakpoint F time source_index source_label)

  unfoldable pub push_scheduled_set : EventQueue H → Carrier → EventQueue H
  push_scheduled_set q time = push q (Entry.scheduled_set F time)

  unfoldable pub push_step_hint : EventQueue H → Carrier → String → EventQueue H
  push_step_hint q time source_label = push q (Entry.step_hint F time source_label)

  unfoldable pub peek_next_time : EventQueue H → Carrier
  peek_next_time q = elim (peek H q.heap) [ none ↦ F.infinity | some e ↦ e.time ]

  -- `front.time.total_cmp(&now) != Ordering::Greater`
  unfoldable pub is_due : Carrier → EventEntry F → Bool
  is_due now e = leb (key e.time) (key now)

  -- The loop's test together with its `pop`: the earliest entry, if it is due.
  unfoldable pub next_due : Carrier → Heap → Option (EventEntry F × Heap)
  next_due now h = elim (pop h) [
    | none ↦ none
    | some (front, rest) ↦ if is_due now front then some (front, rest) else none
  ]

  -- `chk.drained_since.push(entry.clone())` on the active checkpoint, if any.
  abbrev pub note : EventEntry F → Option (Checkpoint H) → Option (Checkpoint H)
  note e none = none
  note e (some chk) = some (record chk { drained_since = chk.drained_since ++ e ∷ [] })

  -- The `while` loop of `drain_due`, on fuel.
  unfoldable pub drain_loop : ℕ → Carrier → EventQueue H → List (EventEntry F) × EventQueue H
  drain_loop zero now q = ([], q)
  drain_loop (suc fuel) now q = elim (next_due now q.heap) [
    | none ↦ ([], q)
    | some (entry, rest) ↦
        let (due, q') =
          drain_loop fuel now (record { heap = rest; checkpoint = note entry q.checkpoint }) in
        (entry ∷ due, q')
  ]

  -- Each round takes one entry away, so the size of the heap is fuel enough.
  unfoldable pub drain_due : Carrier → EventQueue H → List (EventEntry F) × EventQueue H
  drain_due now q = drain_loop (len H q.heap) now q

  unfoldable pub checkpoint : EventQueue H → EventQueue H
  checkpoint q = record q { checkpoint = some (record { heap = q.heap; drained_since = [] }) }

  -- `e.rollback != RollbackBehavior::Restore`
  unfoldable pub is_transient : EventEntry F → Bool
  unfolding rollback_eq
  is_transient e = not (rollback_eq e.rollback RollbackBehavior.restore)

  -- The loop that moves the entries of `restored` that are to stay into `keep`, on fuel.
  unfoldable pub keep_loop : ℕ → List (EventEntry F) → Heap → Heap → Heap
  keep_loop zero non_restore restored keep = keep
  keep_loop (suc fuel) non_restore restored keep = elim (pop restored) [
    | none ↦ keep
    | some (entry, rest) ↦
        keep_loop fuel non_restore rest
          (if not (contains (entry_eq F) non_restore entry) then H.push keep entry else keep)
  ]

  -- The heap of a checkpoint, rebuilt only if there are entries to leave out.
  unfoldable pub rebuild : List (EventEntry F) → Heap → Heap
  rebuild [] restored = restored
  rebuild (e ∷ es) restored = keep_loop (len H restored) (e ∷ es) restored H.new

  unfoldable pub restored_heap : Checkpoint H → Heap
  restored_heap chk = rebuild (retain is_transient chk.drained_since) chk.heap

  unfoldable pub rollback : EventQueue H → EventQueue H
  rollback q = elim q.checkpoint [
    | none ↦ q
    | some chk ↦ record { heap = restored_heap chk; checkpoint = none }
  ]

  unfoldable pub commit : EventQueue H → EventQueue H
  commit q = record q { checkpoint = none }

  unfoldable pub length_of : EventQueue H → ℕ
  length_of q = len H q.heap

  -- What may happen to the queue in one step of the transient analysis.
  pub data Action : Type 0 where
    pushes : EventEntry F → Action
    drains : Carrier → Action

  -- The queue after some actions.
  unfoldable pub attempt : List Action → EventQueue H → EventQueue H
  attempt [] q = q
  attempt (pushes e ∷ rest) q = attempt rest (push q e)
  attempt (drains now ∷ rest) q = attempt rest (drain_due now q).1
