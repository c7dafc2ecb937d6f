-- ===== src/EventQueue/Entry.antt =====
-- The entries of the unified event queue, their constructors, equality and order.
use Prim.Native.Nat.{compare, Ordering}
use Prim.Native.String.{String}
use piperine.Common.{
  ℕ, ◌≡◌, ◌≤◌, ◌<◌, ◌⊎◌, ◌↔◌, Bool, true, ◌&&◌, ◌==◌, arith, not_greater, then_with,
}
use piperine.F64.{F64}
use piperine.Digital.Event.{DigitalNet}
use piperine.EventQueue.Kinds.{
  EventKind, EventTarget, EventPriority, EventSource, RollbackBehavior, rank, kind_eq, target_eq,
  priority_eq, source_eq, rollback_eq, kind_eq_iff, target_eq_iff, priority_eq_iff, source_eq_iff,
  rollback_eq_iff,
}

pub record EventEntry (F : F64) : Type 0 where
  pub kind : EventKind
  pub time : F64.Carrier F
  pub target : EventTarget
  pub priority : EventPriority
  pub source : EventSource
  pub rollback : RollbackBehavior

module _ (F : F64) where
  open F use {Carrier, key}

  unfoldable pub digital : Carrier → DigitalNet → String → EventEntry F
  digital time net source = record {
    kind = EventKind.digital;
    time = time;
    target = EventTarget.net net;
    priority = EventPriority.exact;
    source = EventSource.element source;
    rollback = RollbackBehavior.restore;
  }

  unfoldable pub breakpoint : Carrier → ℕ → String → EventEntry F
  breakpoint time source_index source = record {
    kind = EventKind.breakpoint;
    time = time;
    target = EventTarget.source source_index;
    priority = EventPriority.exact;
    source = EventSource.element source;
    rollback = RollbackBehavior.re_poll;
  }

  unfoldable pub scheduled_set : Carrier → EventEntry F
  scheduled_set time = record {
    kind = EventKind.breakpoint;
    time = time;
    target = EventTarget.advisory;
    priority = EventPriority.exact;
    source = EventSource.scheduled_set;
    rollback = RollbackBehavior.restore;
  }

  unfoldable pub step_hint : Carrier → String → EventEntry F
  step_hint time source = record {
    kind = EventKind.step_hint;
    time = time;
    target = EventTarget.advisory;
    priority = EventPriority.advisory;
    source = EventSource.element source;
    rollback = RollbackBehavior.discard;
  }

  unfoldable pub crossing : Carrier → String → EventEntry F
  crossing time source = record {
    kind = EventKind.crossing;
    time = time;
    target = EventTarget.advisory;
    priority = EventPriority.advisory;
    source = EventSource.element source;
    rollback = RollbackBehavior.discard;
  }

  -- `impl PartialEq for EventEntry`; times are equal when `total_cmp` says so.
  unfoldable pub entry_eq : EventEntry F → EventEntry F → Bool
  entry_eq a b =
      kind_eq a.kind b.kind
      && (key a.time == key b.time
          && (target_eq a.target b.target
              && (priority_eq a.priority b.priority
                  && (source_eq a.source b.source && rollback_eq a.rollback b.rollback))))

  -- `impl Ord for EventEntry`: by time, then by rank.
  unfoldable pub entry_cmp : EventEntry F → EventEntry F → Ordering
  unfolding rank
  entry_cmp a b =
      then_with (compare (key a.time) (key b.time)) (compare (rank a.priority) (rank b.priority))

  unfoldable pub entry_leq : EventEntry F → EventEntry F → Bool
  unfolding entry_cmp
  entry_leq a b = not_greater (entry_cmp a b)

  -- The equality of entries is identity, although it compares the times by `total_cmp`.
  pub entry_eq_iff : (a b : EventEntry F) → (entry_eq a b ≡ true) ↔ (a ≡ b)
  unfolding entry_eq
  entry_eq_iff a b = ground (
    arith,
    kind_eq_iff a.kind b.kind,
    F.key_injective a.time b.time,
    target_eq_iff a.target b.target,
    priority_eq_iff a.priority b.priority,
    source_eq_iff a.source b.source,
    rollback_eq_iff a.rollback b.rollback,
  )

  -- The queue's order: an earlier time, or the same time and no later rank.
  pub entry_leq_iff :
      (a b : EventEntry F)
      → (entry_leq a b ≡ true) ↔ (
          (key a.time < key b.time)
          ⊎ (key a.time ≡ key b.time) × (rank a.priority ≤ rank b.priority))
  unfolding entry_leq
  entry_leq_iff a b = ground arith

  pub entry_leq_total : (a b : EventEntry F) → (entry_leq a b ≡ true) ⊎ (entry_leq b a ≡ true)
  entry_leq_total a b = ground (arith, entry_leq_iff a b, entry_leq_iff b a)

  pub entry_leq_trans :
      (a b c : EventEntry F) → entry_leq a b ≡ true → entry_leq b c ≡ true → entry_leq a c ≡ true
  entry_leq_trans a b c h k =
      ground (arith, entry_leq_iff a b, entry_leq_iff b c, entry_leq_iff a c)
