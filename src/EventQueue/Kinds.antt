-- ===== src/EventQueue/Kinds.antt =====
-- The enums of an event entry, with their derived equalities.
use Prim.Native.String.{String}
use text.Mathlib.Text.{◌==◌ as str_eq}
use text.Mathlib.TextEquality.{eq_iff}
use piperine.Common.{ℕ, ◌≡◌, ◌↔◌, Bool, true, false, ◌==◌, arith}
use piperine.Digital.Event.{DigitalNet}

pub data EventKind : Type 0 where
  digital breakpoint step_hint crossing : EventKind

pub data EventTarget : Type 0 where
  net : DigitalNet → EventTarget
  source : ℕ → EventTarget
  advisory : EventTarget

pub data EventPriority : Type 0 where
  exact advisory : EventPriority

pub data EventSource : Type 0 where
  element : String → EventSource
  scheduled_set system : EventSource

pub data RollbackBehavior : Type 0 where
  restore re_poll discard : RollbackBehavior

unfoldable pub rank : EventPriority → ℕ
rank EventPriority.exact = 0
rank EventPriority.advisory = 1

-- The derived equalities.
unfoldable pub kind_eq : EventKind → EventKind → Bool
kind_eq EventKind.digital EventKind.digital = true
kind_eq EventKind.breakpoint EventKind.breakpoint = true
kind_eq EventKind.step_hint EventKind.step_hint = true
kind_eq EventKind.crossing EventKind.crossing = true
kind_eq a b = false

unfoldable pub target_eq : EventTarget → EventTarget → Bool
target_eq (EventTarget.net m) (EventTarget.net n) = m == n
target_eq (EventTarget.source m) (EventTarget.source n) = m == n
target_eq EventTarget.advisory EventTarget.advisory = true
target_eq a b = false

unfoldable pub priority_eq : EventPriority → EventPriority → Bool
priority_eq EventPriority.exact EventPriority.exact = true
priority_eq EventPriority.advisory EventPriority.advisory = true
priority_eq a b = false

unfoldable pub source_eq : EventSource → EventSource → Bool
source_eq (EventSource.element a) (EventSource.element b) = str_eq a b
source_eq EventSource.scheduled_set EventSource.scheduled_set = true
source_eq EventSource.system EventSource.system = true
source_eq a b = false

unfoldable pub rollback_eq : RollbackBehavior → RollbackBehavior → Bool
rollback_eq RollbackBehavior.restore RollbackBehavior.restore = true
rollback_eq RollbackBehavior.re_poll RollbackBehavior.re_poll = true
rollback_eq RollbackBehavior.discard RollbackBehavior.discard = true
rollback_eq a b = false

pub kind_eq_iff : (a b : EventKind) → (kind_eq a b ≡ true) ↔ (a ≡ b)
unfolding kind_eq
kind_eq_iff a b = ground arith

pub target_eq_iff : (a b : EventTarget) → (target_eq a b ≡ true) ↔ (a ≡ b)
unfolding target_eq
target_eq_iff a b = ground arith

pub priority_eq_iff : (a b : EventPriority) → (priority_eq a b ≡ true) ↔ (a ≡ b)
unfolding priority_eq
priority_eq_iff a b = ground arith

pub source_eq_iff : (a b : EventSource) → (source_eq a b ≡ true) ↔ (a ≡ b)
unfolding source_eq
source_eq_iff (EventSource.element a) (EventSource.element b) = ground (arith, eq_iff a b)
source_eq_iff (EventSource.element a) EventSource.scheduled_set = ground arith
source_eq_iff (EventSource.element a) EventSource.system = ground arith
source_eq_iff EventSource.scheduled_set b = ground arith
source_eq_iff EventSource.system b = ground arith

pub rollback_eq_iff : (a b : RollbackBehavior) → (rollback_eq a b ≡ true) ↔ (a ≡ b)
unfolding rollback_eq
rollback_eq_iff a b = ground arith
