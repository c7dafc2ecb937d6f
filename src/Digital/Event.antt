-- ===== src/Digital/Event.antt =====
-- `DigitalNet` and `DigitalEvent` of crates/piperine-solver/src/digital/events.rs: a change of a
-- net at a time, and the order in which the scheduler takes the events.
use Prim.Native.Nat.{compare, Ordering}
use piperine.Common.{ℕ, ◌≡◌, ◌≤◌, ◌<◌, ◌⊎◌, ◌↔◌, Bool, true, arith, not_greater, then_with}
use piperine.F64.{F64}
use piperine.Digital.Logic.{LogicValue}

-- `DigitalNet(pub usize)`
abbrev pub DigitalNet : Type 0
DigitalNet = ℕ

pub record DigitalEvent (F : F64) : Type 0 where
  pub time : F64.Carrier F
  pub net : DigitalNet
  pub value : LogicValue
  pub source : ℕ
  pub seq : ℕ

module _ (F : F64) where
  open F use {key}

  -- `impl Ord for DigitalEvent`: by time, then by sequence number.
  unfoldable pub event_cmp : DigitalEvent F → DigitalEvent F → Ordering
  event_cmp a b = then_with (compare (key a.time) (key b.time)) (compare a.seq b.seq)

  unfoldable pub event_leq : DigitalEvent F → DigitalEvent F → Bool
  unfolding event_cmp
  event_leq a b = not_greater (event_cmp a b)

  -- The queue's order: an earlier time, or the same time and no later sequence number.
  pub event_leq_iff :
      (a b : DigitalEvent F)
      → (event_leq a b ≡ true)
        ↔ ((key a.time < key b.time) ⊎ (key a.time ≡ key b.time) × (a.seq ≤ b.seq))
  unfolding event_leq
  event_leq_iff a b = ground arith

  pub event_leq_total : (a b : DigitalEvent F) → (event_leq a b ≡ true) ⊎ (event_leq b a ≡ true)
  event_leq_total a b = ground (arith, event_leq_iff a b, event_leq_iff b a)

  pub event_leq_trans :
      (a b c : DigitalEvent F) → event_leq a b ≡ true → event_leq b c ≡ true → event_leq a c ≡ true
  event_leq_trans a b c h k =
      ground (arith, event_leq_iff a b, event_leq_iff b c, event_leq_iff a c)

  pub event_leq_time : (a b : DigitalEvent F) → event_leq a b ≡ true → key a.time ≤ key b.time
  event_leq_time a b h = ground (arith, event_leq_iff a b)
