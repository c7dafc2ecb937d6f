-- ===== src/Digital/Dag.antt =====
-- `evaluate_dag_ordered` of crates/piperine-solver/src/digital/scheduler.rs, over the order and the
-- back edges of a `DigitalTopology`. `none` is an index out of bounds.
pub mod Delivery
pub mod Passes
pub mod Safe
use mathlib.Core.Option
use piperine.Common.{
  ℕ, zero, suc, ◌+◌, Bool, true, false, not, ◌&&◌, List, [], ◌∷◌, Option, none, some, get_elem?,
  get_or, set, replicate, length, if◌then◌else◌, ltb, ◌==◌, ◌||◌,
}
use piperine.F64.{F64}
use piperine.BinaryHeap.{BinaryHeap, len}
use piperine.BinaryHeap.PopWhile.{next_passing}
use piperine.Digital.Logic.{LogicValue, value_eq}
use piperine.Digital.Event.{DigitalEvent, DigitalNet, event_leq}
use piperine.Digital.State.{DigitalState}
use piperine.Digital.Interface.{EvalCtx, Emission, Element, has_input_on, emit_all}
use piperine.Digital.Scheduler.{
  PlanLimits, Status, settled, delta_limit, panicked, apply_event, is_now, Run,
}

-- A back edge is a pair of positions in `topo_order`.
pub record DigitalTopology : Type 0 where
  pub topo_order : List ℕ
  pub back_edges : List (ℕ × ℕ)

-- The values of the nets in turn.
unfoldable pub read_all : List LogicValue → List DigitalNet → Option (List LogicValue)
read_all nets [] = some []
read_all nets (n ∷ ns) = elim (get_elem? nets n) [
  | none ↦ none
  | some v ↦ Option.map (λ vs. v ∷ vs) (read_all nets ns)
]

-- `outputs.iter().enumerate().any(..)`: some output that had a value before now has another.
unfoldable pub any_differs : List LogicValue → List DigitalNet → List LogicValue → Option Bool
any_differs nets [] prev = some false
any_differs nets (n ∷ ns) [] = some false
any_differs nets (n ∷ ns) (old ∷ olds) =
    let rest = any_differs nets ns olds in
    elim (get_elem? nets n) [ none ↦ none | some v ↦ if value_eq v old then rest else some true ]

-- `outputs_changed`: an element without outputs counts as changed.
unfoldable pub outputs_differ : List LogicValue → List DigitalNet → List LogicValue → Option Bool
outputs_differ nets [] prev = some true
outputs_differ nets (n ∷ ns) prev = any_differs nets (n ∷ ns) prev

-- `Some(match next_restart { None => dst_pos, Some(cur) => cur.min(dst_pos) })`
unfoldable pub earlier : Option ℕ → ℕ → ℕ
earlier none dst = dst
earlier (some cur) dst = if ltb dst cur then dst else cur

-- Where the next pass starts: the first target of a back edge whose source changed its outputs.
unfoldable pub next_restart : List Bool → List (ℕ × ℕ) → Option ℕ → Option (Option ℕ)
next_restart changed_at [] best = some best
next_restart changed_at ((src, dst) ∷ edges) best = elim (get_elem? changed_at src) [
  | none ↦ none
  | some c ↦ next_restart changed_at edges (if c then some (earlier best dst) else best)
]

-- `topo_order[restart_from..]`
unfoldable pub slice_from : ℕ → List ℕ → Option (List ℕ)
slice_from zero xs = some xs
slice_from (suc k) [] = none
slice_from (suc k) (x ∷ xs) = slice_from k xs

module _ {F : F64} {S : Type 0} (E : Element F S)
    (H : BinaryHeap (DigitalEvent F) (event_leq F)) where
  open F use {Carrier}
  open H use {Heap}

  -- The state, and the nets that changed since the evaluation began.
  pub record Board : Type 0 where
    pub state : DigitalState H
    pub changed : List DigitalNet

  -- `if self.nets[ev.net.0] != ev.value { .. }`
  unfoldable pub write_net : DigitalEvent F → Board → Option Board
  write_net ev b = elim (apply_event ev b.state.nets b.changed) [
    | none ↦ none
    | some (nets, changed) ↦
        some (record { state = record b.state { nets = nets }; changed = changed })
  ]

  unfoldable pub with_queue : Board → Heap → Board
  with_queue b queue = record b { state = record b.state { event_queue = queue } }

  -- What the passes work on.
  pub record Sweep : Type 0 where
    pub board : Board
    pub devices : List S
    pub seq : ℕ
    pub output_changed_at : List Bool

  unfoldable pub run_of : Sweep → Run E H
  run_of w = record { state = w.board.state; devices = w.devices; seq = w.seq }

  -- Phase 1 in topological order: the elements' states, and which of them fired.
  unfoldable pub sample_all :
      EvalCtx F → List DigitalNet → List ℕ → List S × List Bool → Option (List S × List Bool)
  sample_all ctx changed [] r = some r
  sample_all ctx changed (i ∷ order) (devices, fired) = elim (get_elem? devices i) [
    | none ↦ none
    | some s ↦
        let (s', f) = E.seq_phase ctx s in
        let r' =
          if has_input_on E s changed
          then (set devices i s', set fired i f)
          else (devices, fired) in
        sample_all ctx changed order r'
  ]

  module _ (limits : PlanLimits F) (t : Carrier) (analog : List Carrier) where
    -- The loop that drains the events at `t`, on fuel.
    unfoldable pub drain_now : ℕ → Board → Option Board
    drain_now zero b = some b
    drain_now (suc fuel) b =
        elim (next_passing H (is_now E H limits t analog) b.state.event_queue) [
          | none ↦ some b
          | some (ev, rest) ↦ elim (write_net ev (with_queue b rest)) [
            | none ↦ none
            | some b' ↦ drain_now fuel b'
          ]
        ]

    -- One event of an element: written at once, or queued for later.
    unfoldable pub route : DigitalEvent F → Board → Option Board
    route ev b =
        if is_now E H limits t analog ev
        then write_net ev b
        else some (with_queue b (H.push b.state.event_queue ev))

    -- `while let Some(Reverse(ev)) = local_q.pop()`, on fuel.
    unfoldable pub route_all : ℕ → Heap → Board → Option Board
    route_all zero local b = some b
    route_all (suc fuel) local b = elim (H.pop local) [
      | none ↦ some b
      | some (ev, rest) ↦ elim (route ev b) [ none ↦ none | some b' ↦ route_all fuel rest b' ]
    ]

    -- Phase 2 on element `i`, whose state is `s`, at position `pos`.
    unfoldable pub settle_device : ℕ → ℕ → S → Sweep → Option Sweep
    settle_device pos i s w =
        let nets = w.board.state.nets in
        elim (read_all nets (E.outputs s)) [
          | none ↦ none
          | some prev_outs ↦
              let (s', emissions) =
                E.comb_phase (record { time = t; nets = nets; analog = analog }) s in
              let (local, seq') = emit_all H H.new t i w.seq emissions in
              elim (route_all (len H local) local w.board) [
                | none ↦ none
                | some b ↦
                    Option.map
                      (λ d. record {
                        board = b;
                        devices = set w.devices i s';
                        seq = seq';
                        output_changed_at = set w.output_changed_at pos d;
                      })
                      (outputs_differ b.state.nets (E.outputs s') prev_outs)
              ]
        ]

    -- An element is evaluated if it is digital and an input of it changed or its registers fired.
    unfoldable pub visit : List Bool → ℕ → ℕ → Sweep → Option Sweep
    visit fired pos i w = elim (get_elem? w.devices i) [
      | none ↦ none
      | some s ↦
          if E.is_digital s && (has_input_on E s w.board.changed || get_or fired i false)
          then settle_device pos i s w
          else some w
    ]

    -- One pass over the rest of the order, from position `pos` on.
    unfoldable pub pass : List Bool → ℕ → List ℕ → Sweep → Option Sweep
    pass fired pos [] w = some w
    pass fired pos (i ∷ order) w = elim (visit fired pos i w) [
      | none ↦ none
      | some w' ↦ pass fired (pos + 1) order w'
    ]

    -- One turn of the loop up to the choice of the restart.
    unfoldable pub turn : DigitalTopology → List Bool → ℕ → Sweep → Option (Sweep × Option ℕ)
    turn topology fired restart_from w = elim (slice_from restart_from topology.topo_order) [
      | none ↦ none
      | some order ↦
          let cleared = replicate (length topology.topo_order) false in
          elim (pass fired restart_from order (record w { output_changed_at = cleared })) [
            | none ↦ none
            | some w' ↦
                Option.map (λ next. (w', next))
                  (next_restart w'.output_changed_at topology.back_edges none)
          ]
    ]

    -- `for iter in 0..max_iters`; the first argument counts the rounds that are left.
    unfoldable pub dag_loop : ℕ → DigitalTopology → List Bool → ℕ → ℕ → Sweep → Run E H × Status
    dag_loop zero topology fired iter restart_from w = (run_of w, settled)
    dag_loop (suc left) topology fired iter restart_from w =
        elim (turn topology fired restart_from w) [
          | none ↦ (run_of w, panicked)
          | some (w', none) ↦ (run_of w', settled)
          | some (w', some pos) ↦
              let later = dag_loop left topology fired (iter + 1) pos w' in
              if iter + 1 == limits.max_delta_cycles then (run_of w', delta_limit) else later
        ]

    -- From the drained events on; nothing is done if they changed nothing.
    unfoldable pub propagate :
        DigitalTopology → List S → DigitalState H → List DigitalNet → Run E H × Status
    propagate topology devices state [] =
        (record { state = state; devices = devices; seq = 0 }, settled)
    propagate topology devices state (c ∷ changed) =
        let ctx : EvalCtx F = record { time = t; nets = state.nets; analog = analog } in
        elim (sample_all ctx (c ∷ changed) topology.topo_order
          (devices, replicate (length devices) false)) [
            | none ↦ (record { state = state; devices = devices; seq = 0 }, panicked)
            | some (devices', fired) ↦ dag_loop limits.max_delta_cycles topology fired 0 0 (record {
              board = record { state = state; changed = c ∷ changed };
              devices = devices';
              seq = 0;
              output_changed_at = replicate (length topology.topo_order) false;
            })
          ]

    unfoldable pub evaluate_dag_ordered :
        DigitalTopology → DigitalState H → List S → Run E H × Status
    evaluate_dag_ordered topology state devices =
        let unchanged : Run E H = record { state = state; devices = devices; seq = 0 } in
        if length topology.topo_order == 0
        then (unchanged, settled)
        else elim (drain_now (len H state.event_queue) (record { state = state; changed = [] })) [
          | none ↦ (unchanged, panicked)
          | some b ↦ propagate topology devices b.state b.changed
        ]
