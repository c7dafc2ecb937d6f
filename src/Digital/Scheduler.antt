-- ===== src/Digital/Scheduler.antt =====
-- `evaluate_until_stable` of crates/piperine-solver/src/digital/scheduler.rs.
pub mod Ends
pub mod Nets
pub mod Safe
use mathlib.Core.Option
use piperine.Common.{
  ℕ, zero, suc, ◌+◌, Bool, true, false, List, [], ◌∷◌, Option, none, some, get_elem?, set, map,
  if◌then◌else◌, leb, ◌||◌,
}
use piperine.F64.{F64}
use piperine.BinaryHeap.{BinaryHeap}
use piperine.BinaryHeap.PopWhile.{pop_while, front_passes}
use piperine.Digital.Logic.{LogicValue, value_eq}
use piperine.Digital.Event.{DigitalEvent, DigitalNet, event_leq}
use piperine.Digital.State.{DigitalState}
use piperine.Digital.Interface.{EvalCtx, Emission, Element, has_input_on, emit_all}

-- The fields of `PlanLimits` that the scheduler reads.
pub record PlanLimits (F : F64) : Type 0 where
  pub max_delta_cycles : ℕ
  pub digital_time_epsilon : F64.Carrier F

-- How an evaluation ends. `panicked` is an index out of bounds; `out_of_fuel` is the model's own.
pub data Status : Type 0 where
  settled delta_limit panicked out_of_fuel : Status

module _ {F : F64} where
  -- The write of one event: the net takes the value, and is marked if that changes it.
  unfoldable pub apply_event :
      DigitalEvent F
      → List LogicValue
      → List DigitalNet
      → Option (List LogicValue × List DigitalNet)
  apply_event ev nets changed = elim (get_elem? nets ev.net) [
    | none ↦ none
    | some old ↦
        if value_eq old ev.value
        then some (nets, changed)
        else some (set nets ev.net ev.value, ev.net ∷ changed)
  ]

  unfoldable pub apply_events :
      List (DigitalEvent F)
      → List LogicValue
      → List DigitalNet
      → Option (List LogicValue × List DigitalNet)
  apply_events [] nets changed = some (nets, changed)
  apply_events (ev ∷ evs) nets changed = elim (apply_event ev nets changed) [
    | none ↦ none
    | some (nets', changed') ↦ apply_events evs nets' changed'
  ]

module _ {F : F64} {S : Type 0} (E : Element F S)
    (H : BinaryHeap (DigitalEvent F) (event_leq F)) where
  open F use {Carrier, le, add}

  pub record Run : Type 0 where
    pub state : DigitalState H
    pub devices : List S
    pub seq : ℕ

  -- Phase 1 on one device: its new state, and whether a clocked block fired.
  unfoldable pub commit_registers : EvalCtx F → List DigitalNet → S → S × Bool
  commit_registers ctx changed s =
      if has_input_on E s changed then E.seq_phase ctx s else (s, false)

  -- Phase 2 on the devices from number `i` on.
  unfoldable pub comb_all :
      EvalCtx F
      → List DigitalNet
      → ℕ
      → List (S × Bool)
      → BinaryHeap.Heap H
      → ℕ
      → List S × BinaryHeap.Heap H × ℕ
  comb_all ctx changed i [] queue seq = ([], queue, seq)
  comb_all ctx changed i ((s, fired) ∷ rest) queue seq =
      let awake = fired || has_input_on E s changed in
      let (s', emissions) = if awake then E.comb_phase ctx s else (s, []) in
      let (queue', seq') = emit_all H queue ctx.time i seq emissions in
      let (devices, queue'', seq'') = comb_all ctx changed (i + 1) rest queue' seq' in
      (s' ∷ devices, queue'', seq'')

  -- Both phases, on the nets as the events left them.
  unfoldable pub run_phases : Carrier → List Carrier → List LogicValue → List DigitalNet → Run → Run
  run_phases t analog nets changed r =
      let ctx : EvalCtx F = record { time = t; nets = nets; analog = analog } in
      let committed = map (commit_registers ctx changed) r.devices in
      let (devices, queue, seq) = comb_all ctx changed 0 committed r.state.event_queue r.seq in
      record {
        state = record r.state { nets = nets; event_queue = queue };
        devices = devices;
        seq = seq;
      }

  module _ (limits : PlanLimits F) (t : Carrier) (analog : List Carrier) where
    -- `event.time <= t + epsilon`
    unfoldable pub is_now : DigitalEvent F → Bool
    is_now event = le event.time (add t limits.digital_time_epsilon)

    -- What one turn of the loop does, up to its tests at the end.
    pub data Cycle : Type 0 where
      quiet ran faulted : Run → Cycle

    unfoldable pub fire : Run → List (DigitalEvent F) → Cycle
    fire r [] = quiet r
    fire r (ev ∷ evs) = elim (apply_events (ev ∷ evs) r.state.nets []) [
      | none ↦ faulted r
      | some (nets, changed) ↦ ran (run_phases t analog nets changed r)
    ]

    unfoldable pub cycle : Run → Cycle
    cycle r =
        let (events_now, queue) = pop_while H is_now r.state.event_queue in
        fire (record r { state = record r.state { event_queue = queue } }) events_now

    unfoldable pub has_more_at_t : Run → Bool
    has_more_at_t r = front_passes H is_now r.state.event_queue

    -- Whether the loop breaks or returns, or goes round again.
    pub data Turn : Type 0 where
      stop : Run → Status → Turn
      again : Run → Turn

    -- The tests at the end of a turn; `delta_count` is the count before it.
    unfoldable pub conclude : ℕ → Cycle → Turn
    conclude delta_count (quiet r) = stop r settled
    conclude delta_count (faulted r) = stop r panicked
    conclude delta_count (ran r) =
        if leb limits.max_delta_cycles (delta_count + 1)
        then stop r delta_limit
        else if has_more_at_t r
        then again r
        else stop r settled

    unfoldable pub until_loop : ℕ → ℕ → Run → Run × Status
    until_loop zero delta_count r = (r, out_of_fuel)
    until_loop (suc fuel) delta_count r = elim (conclude delta_count (cycle r)) [
      | stop r' status ↦ (r', status)
      | again r' ↦ until_loop fuel (delta_count + 1) r'
    ]

    -- The cap on the delta cycles bounds the loop too.
    unfoldable pub evaluate_until_stable : DigitalState H → List S → Run × Status
    evaluate_until_stable state devices =
        until_loop (limits.max_delta_cycles + 1) 0
          (record { state = state; devices = devices; seq = 0 })
