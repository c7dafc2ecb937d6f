-- ===== src/Digital/Circuit.antt =====
-- The mixed-signal seam of `CircuitInstance`, crates/piperine-solver/src/core/circuit.rs: the digital
-- part of a circuit, and the accept hooks of its elements.
pub mod Sealed
pub mod Rejected
mod Examples
use mathlib.Core.Option
use piperine.Common.{
  ℕ, zero, suc, ◌+◌, Bool, true, false, not, ◌&&◌, List, [], ◌∷◌, Option, none, some, length,
  if◌then◌else◌,
}
use piperine.F64.{F64}
use piperine.BinaryHeap.{BinaryHeap}
use piperine.History.{CircularArrayBuffer}
use piperine.History
use piperine.Digital.Logic.{LogicValue, value_eq}
use piperine.Digital.Event.{DigitalEvent, event_leq}
use piperine.Digital.State.{DigitalState, schedule}
use piperine.Digital.State
use piperine.Digital.Interface.{Emission, Element, emit_all}
use piperine.Digital.Scheduler.{
  PlanLimits, Status, settled, delta_limit, panicked, out_of_fuel, Run, evaluate_until_stable,
}
use piperine.Digital.Dag.{DigitalTopology, evaluate_dag_ordered}
use piperine.Digital.Topology.{build}

-- The accept hook of the trait `Element`.
pub record MixedElement (F : F64) (S : Type 0) : Type 0 where
  pub digital : Element F S
  pub accept_timestep :
      CircularArrayBuffer (F64.Carrier F)
      → F64.Carrier F
      → List LogicValue
      → S
      → S × List (Emission F)

-- `==` on the values of the nets.
unfoldable pub nets_eq : List LogicValue → List LogicValue → Bool
nets_eq [] [] = true
nets_eq [] (w ∷ ws) = false
nets_eq (v ∷ vs) [] = false
nets_eq (v ∷ vs) (w ∷ ws) = value_eq v w && nets_eq vs ws

module _ {F : F64} {S : Type 0} (E : MixedElement F S)
    (H : BinaryHeap (DigitalEvent F) (event_leq F)) where
  open F use {Carrier}
  open H use {Heap, items}

  pub record CircuitInstance : Type 0 where
    pub devices : List S
    pub digital_topology : Option DigitalTopology
    pub digital_state : DigitalState H

  unfoldable pub rebuild_digital_topology : CircuitInstance → CircuitInstance
  rebuild_digital_topology c = record c { digital_topology = some (build (E.digital) c.devices) }

  -- One hook on every element in turn, from number `i` on, each with its own sink on one queue.
  unfoldable pub seed_all :
      (S → S × List (Emission F)) → Carrier → ℕ → List S → Heap → ℕ → List S × Heap × ℕ
  seed_all hook t i [] queue seq = ([], queue, seq)
  seed_all hook t i (s ∷ rest) queue seq =
      let (s', emissions) = hook s in
      let (queue', seq') = emit_all H queue t i seq emissions in
      let (devices, queue'', seq'') = seed_all hook t (i + 1) rest queue' seq' in
      (s' ∷ devices, queue'', seq'')

  -- `for Reverse(event) in seed_queue { self.digital_state.schedule(event) }`
  unfoldable pub schedule_all : List (DigitalEvent F) → DigitalState H → DigitalState H
  schedule_all [] state = state
  schedule_all (ev ∷ evs) state = schedule_all evs (schedule H state ev)

  unfoldable pub seeded : (S → S × List (Emission F)) → Carrier → CircuitInstance → CircuitInstance
  seeded hook t c =
      let (devices, queue, _) = seed_all hook t 0 c.devices H.new 0 in
      record c { devices = devices; digital_state = schedule_all (items queue) c.digital_state }

  -- `init` on the digital elements only.
  unfoldable pub init_hook : S → S × List (Emission F)
  init_hook s = if (E.digital).is_digital s then (E.digital).init s else (s, [])

  unfoldable pub with_run : CircuitInstance → Run (E.digital) H × Status → CircuitInstance × Status
  with_run c (r, status) = (record c { devices = r.devices; digital_state = r.state }, status)

  -- `limits` is `PlanLimits::default()`, and `zero_value` is `0.0`.
  module _ (limits : PlanLimits F) (zero_value : Carrier) where
    unfoldable pub run_digital_at_with_analog :
        CircuitInstance → Carrier → List Carrier → CircuitInstance × Status
    run_digital_at_with_analog c t analog = elim c.digital_topology [
      | some topo ↦
          with_run c
            (evaluate_dag_ordered (E.digital) H limits t analog topo c.digital_state c.devices)
      | none ↦
          with_run c (evaluate_until_stable (E.digital) H limits t analog c.digital_state c.devices)
    ]

    unfoldable pub run_digital_at : CircuitInstance → Carrier → CircuitInstance × Status
    run_digital_at c t = run_digital_at_with_analog c t []

    unfoldable pub init_digital : CircuitInstance → CircuitInstance × Status
    init_digital c = run_digital_at (seeded init_hook zero_value c) zero_value

    -- `none` is a failed assertion of the buffer.
    unfoldable pub build_accept_state : List Carrier → Option (CircularArrayBuffer Carrier)
    build_accept_state solution = elim (History.new zero_value 1 (length solution)) [
      | none ↦ none
      | some state ↦ History.push state solution
    ]

    unfoldable pub seed_digital_from_accept_hooks :
        CircularArrayBuffer Carrier → Carrier → CircuitInstance → CircuitInstance
    seed_digital_from_accept_hooks state t c =
        seeded (E.accept_timestep state t c.digital_state.nets) t c

    -- Whether a net moved, if the evaluation succeeds.
    unfoldable pub moved :
        List LogicValue → CircuitInstance × Status → CircuitInstance × Status × Bool
    moved before (c, status) = (c, status, not (nets_eq before c.digital_state.nets))

    unfoldable pub accept_and_run_digital :
        CircuitInstance → List Carrier → Carrier → CircuitInstance × Status × Bool
    accept_and_run_digital c solution t = elim (build_accept_state solution) [
      | none ↦ (c, panicked, false)
      | some state ↦
          moved c.digital_state.nets
            (run_digital_at_with_analog (seed_digital_from_accept_hooks state t c) t solution)
    ]

    unfoldable pub checkpointed : CircuitInstance → CircuitInstance
    checkpointed c = record c { digital_state = State.checkpoint H c.digital_state }

    unfoldable pub rolled_back : CircuitInstance → CircuitInstance
    rolled_back c = record c { digital_state = State.rollback H c.digital_state }

    -- What the transient driver runs between a checkpoint and a rollback.
    pub data Action : Type 0 where
      runs : Carrier → Action
      accepts : List Carrier → Carrier → Action

    -- The circuit after some actions, whatever their outcome.
    unfoldable pub attempt : List Action → CircuitInstance → CircuitInstance
    attempt [] c = c
    attempt (runs t ∷ rest) c = attempt rest (run_digital_at c t).0
    attempt (accepts solution t ∷ rest) c = attempt rest (accept_and_run_digital c solution t).0
