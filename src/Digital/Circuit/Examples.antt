-- ===== src/Digital/Circuit/Examples.antt =====
-- Two inverters in a chain, driven by a comparator: tests of the DAG evaluation and of the circuit.

use piperine.Common.{
  ℕ, ◌≡◌, refl, ◌⊎◌, Bool, true, false, not, List, [], ◌∷◌, Option, none, some, get_or, Every, ltb,
  arith, subst, if◌then◌else◌,
}
use piperine.F64.{ticks}
use piperine.BinaryHeap.{BinaryHeap}
use piperine.BinaryHeap.Selection.{selection}
use piperine.BinaryHeap.PopWhile.{next_passing}
use piperine.History
use piperine.History.{CircularArrayBuffer}
use piperine.Digital.Logic.{LogicValue, value_eq}
use piperine.Digital.Event.{DigitalEvent, event_leq, event_leq_total, event_leq_trans}
use piperine.Digital.State.{DigitalState, new, schedule}
use piperine.Digital.Interface.{
  EvalCtx, Element, emit_all, emit, has_input_on, any_changed, contains_net,
}
use piperine.Digital.Scheduler.{PlanLimits, Status, settled, delta_limit, apply_event, Run, is_now}
use piperine.Digital.Scheduler.Safe.{Fits}
use piperine.Digital.Dag.{
  DigitalTopology, evaluate_dag_ordered, drain_now, write_net, with_queue, propagate, sample_all,
  dag_loop, turn, slice_from, pass, visit, settle_device, read_all, any_differs, outputs_differ,
  route, route_all, next_restart, earlier, run_of,
}
use piperine.Digital.Dag.Safe.{Ranked, evaluate_dag_ordered_safe, evaluate_dag_ordered_settles}
use piperine.Digital.Circuit.{
  MixedElement, CircuitInstance, accept_and_run_digital, Action, runs, accepts, attempt,
  checkpointed, rolled_back, init_digital,
}
use piperine.Digital.Circuit.Sealed.{Drives, Wired, Ended, accept_and_run_digital-Wired}
use piperine.Digital.Circuit.Rejected.{rolled_back-attempt, init_digital-Wired}

abbrev Events : BinaryHeap (DigitalEvent ticks) (event_leq ticks)
Events = selection (event_leq ticks) (event_leq_total ticks) (event_leq_trans ticks)

abbrev invert : LogicValue → LogicValue
invert LogicValue.zero = LogicValue.one
invert LogicValue.one = LogicValue.zero
invert v = LogicValue.x

-- The first inverter drives net 1 from net 0, the second one net 2 from net 1.
abbrev reads : Bool → ℕ
reads false = 0
reads true = 1

abbrev writes : Bool → ℕ
writes false = 1
writes true = 2

-- Net 0 is high if the first unknown is above 3.
abbrev above : Option (List ℕ) → LogicValue
above none = LogicValue.x
above (some row) = if ltb 3 (get_or row 0 0) then LogicValue.one else LogicValue.zero

abbrev gate : MixedElement ticks Bool
gate = record {
  digital = record {
    inputs = λ s. reads s ∷ [];
    outputs = λ s. writes s ∷ [];
    init = λ s. (s, record { net = 0; value = LogicValue.zero; delay = 0 } ∷ []);
    seq_phase = λ ctx s. (s, false);
    comb_phase = λ ctx s. (
      s,
      record { net = writes s; value = invert (get_or ctx.nets (reads s) LogicValue.x); delay = 0 }
          ∷ [],
    );
    is_digital = λ s. true;
  };
  accept_timestep = λ state t nets s.
      (s, record { net = 0; value = above (History.latest state); delay = 0 } ∷ []);
}

outs_fit : (s : Bool) → Every (λ j. ltb j 3) (Element.outputs (gate.digital) s)
outs_fit false = refl
outs_fit true = refl

comb_fits :
    (ctx : EvalCtx ticks) (s : Bool)
    → Every (λ e. ltb e.net 3) (Element.comb_phase (gate.digital) ctx s).1
comb_fits ctx false = refl
comb_fits ctx true = refl

gate-Drives : Drives gate Events 3
gate-Drives = record {
  outs = outs_fit;
  comb = comb_fits;
  start = λ s. refl;
  accept = λ state t nets s. refl;
}

abbrev rise : DigitalEvent ticks
rise = record { time = 5; net = 0; value = LogicValue.one; source = 9; seq = 0 }

abbrev armed : DigitalState Events
armed = schedule Events (new Events 3) rise

abbrev limits : PlanLimits ticks
limits = record { max_delta_cycles = 10; digital_time_epsilon = 0 }

-- The chain in order.
abbrev forward : DigitalTopology
forward = record { topo_order = 0 ∷ 1 ∷ []; back_edges = [] }

-- The chain the other way round, with a back edge.
abbrev against : DigitalTopology
against = record { topo_order = 1 ∷ 0 ∷ []; back_edges = (1, 0) ∷ [] }

abbrev outcome : DigitalTopology → Run (gate.digital) Events × Status
outcome topology =
    evaluate_dag_ordered (gate.digital) Events limits 5 [] topology armed (false ∷ true ∷ [])

ordered :
    ((outcome forward).0.state.nets ≡ LogicValue.one ∷ LogicValue.zero ∷ LogicValue.one ∷ [])
    × ((outcome forward).1 ≡ settled)
    × ((outcome against).0.state.nets ≡ LogicValue.one ∷ LogicValue.zero ∷ LogicValue.one ∷ [])
    × ((outcome against).1 ≡ settled)
unfolding new schedule selection event_leq evaluate_dag_ordered drain_now write_net with_queue
    propagate sample_all dag_loop turn slice_from pass visit settle_device read_all any_differs
    outputs_differ route route_all next_restart earlier run_of next_passing is_now emit_all emit
    has_input_on any_changed contains_net apply_event value_eq
ordered = (refl, refl, refl, refl)

evaluate_dag_ordered_safe_example :
    Fits (gate.digital) Events 3 armed.labels armed.checkpoint 2 (outcome against).0
    × (((outcome against).1 ≡ settled) ⊎ ((outcome against).1 ≡ delta_limit))
unfolding schedule new selection
evaluate_dag_ordered_safe_example =
    evaluate_dag_ordered_safe (gate.digital) Events 3 outs_fit comb_fits limits 5 [] against armed
      (false ∷ true ∷ []) (record { order = refl; edges = refl }) refl refl

evaluate_dag_ordered_settles_example :
    Every
      (λ ev. not (is_now (gate.digital) Events limits 5 [] ev))
      (BinaryHeap.items Events (outcome against).0.state.event_queue)
unfolding schedule new selection
evaluate_dag_ordered_settles_example =
    evaluate_dag_ordered_settles (gate.digital) Events 3 outs_fit comb_fits limits 5 [] against
      armed (false ∷ true ∷ []) (record { order = refl; edges = refl }) refl refl (omega arith) refl

abbrev board : CircuitInstance gate Events
board = record {
  devices = false ∷ true ∷ [];
  digital_topology = some forward;
  digital_state = armed;
}

forward_only : (topo : DigitalTopology) → board.digital_topology ≡ some topo → Ranked topo 2
forward_only topo e =
    let same : forward ≡ topo = cc in
    subst (λ t. Ranked t 2) same (record { order = refl; edges = refl })

board-Wired : Wired gate Events 3 armed.labels armed.checkpoint 2 board
unfolding schedule new selection
board-Wired = record {
  size = refl;
  inside = refl;
  labels_same = refl;
  saved_same = refl;
  count = refl;
  ranked = forward_only;
}

init_digital-Wired_example :
    Wired gate Events 3 armed.labels armed.checkpoint 2 (init_digital gate Events limits 0 board).0
    × Ended (init_digital gate Events limits 0 board).1
init_digital-Wired_example = init_digital-Wired gate Events 3 gate-Drives limits 0 board board-Wired

accept_and_run_digital-Wired_example :
    Wired gate Events 3 armed.labels armed.checkpoint 2
      (accept_and_run_digital gate Events limits 0 board (7 ∷ []) 5).0
    × Ended (accept_and_run_digital gate Events limits 0 board (7 ∷ []) 5).1
accept_and_run_digital-Wired_example =
    accept_and_run_digital-Wired gate Events 3 gate-Drives limits 0 armed.labels armed.checkpoint 2
      board (7 ∷ []) 5 board-Wired

abbrev actions : List (Action gate Events limits 0)
actions = runs 5 ∷ accepts (7 ∷ []) 6 ∷ runs 9 ∷ []

rolled_back-attempt_example :
    (rolled_back gate Events limits 0 (
      attempt gate Events limits 0 actions (checkpointed gate Events limits 0 board))).digital_state
    ≡ record armed { checkpoint = none }
rolled_back-attempt_example =
    rolled_back-attempt gate Events 3 gate-Drives limits 0 board board-Wired actions
