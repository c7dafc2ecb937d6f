-- ===== src/Digital/Logic.antt =====
-- `LogicValue` of crates/piperine-solver/src/digital/events.rs: the four logic levels and the
-- resolution of two drivers of one net.
use piperine.Common.{◌≡◌, ◌↔◌, ◌⊎◌, Bool, true, false, arith}

pub data LogicValue : Type 0 where
  zero one x z : LogicValue

unfoldable pub resolve : LogicValue → LogicValue → LogicValue
resolve LogicValue.z other = other
resolve LogicValue.zero LogicValue.z = LogicValue.zero
resolve LogicValue.one LogicValue.z = LogicValue.one
resolve LogicValue.x LogicValue.z = LogicValue.x
resolve LogicValue.zero LogicValue.zero = LogicValue.zero
resolve LogicValue.one LogicValue.one = LogicValue.one
resolve a b = LogicValue.x

pub LogicValue-discrete : Discrete LogicValue
LogicValue-discrete = hlevel

-- `a == b`, as derived.
unfoldable pub value_eq : LogicValue → LogicValue → Bool
value_eq LogicValue.zero LogicValue.zero = true
value_eq LogicValue.one LogicValue.one = true
value_eq LogicValue.x LogicValue.x = true
value_eq LogicValue.z LogicValue.z = true
value_eq a b = false

pub value_eq_iff : (a b : LogicValue) → (value_eq a b ≡ true) ↔ (a ≡ b)
unfolding value_eq
value_eq_iff a b = ground arith

-- How much a driver says: a floating net says nothing, a conflict says too much.
abbrev pub Says : LogicValue → LogicValue → Type 0
Says a b = (a ≡ LogicValue.z) ⊎ (a ≡ b) ⊎ (b ≡ LogicValue.x)

-- The resolution of two drivers is the least level above both in the order Z < 0, 1 < X: it lies
-- below a level exactly when both drivers do.
pub resolve_least_upper : (a b c : LogicValue) → Says (resolve a b) c ↔ (Says a c × Says b c)
unfolding resolve
resolve_least_upper a b c = ground arith
