-- ===== src/Digital/Examples.antt =====
-- Tests of the digital state and scheduler, and their theorems at a concrete circuit.
use piperine.Common.{
  ℕ, ◌≡◌, ◌≢◌, ◌≤◌, ◌<◌, ◌+◌, ◌↔◌, refl, ◌⊎◌, true, false, not, ◌||◌, [], ◌∷◌, some, count_p-false,
  Every, length, get_or, arith,
}
use piperine.F64.{ticks}
use piperine.BinaryHeap.{BinaryHeap}
use piperine.BinaryHeap.Selection.{selection}
use piperine.BinaryHeap.PopWhile.{pop_while, pop_loop, next_passing, front_passes}
use piperine.Digital.Logic.{LogicValue, resolve, Says, value_eq, resolve_least_upper}
use piperine.Digital.Event.{DigitalEvent, event_leq, event_leq_total, event_leq_trans}
use piperine.Digital.State.{DigitalState, new, schedule, set_label, label_or_default, anonymous}
use piperine.Digital.State.Labels.{label-set_label, set_label_mislabels}
use piperine.Digital.Interface.{Element, emit_all, emit, has_input_on, any_changed, contains_net}
use piperine.Digital.Scheduler.{
  PlanLimits, Status, settled, delta_limit, apply_event, apply_events, Run, commit_registers,
  comb_all, run_phases, is_now, fire, cycle, has_more_at_t, stop, conclude, until_loop,
  evaluate_until_stable,
}
use piperine.Digital.Scheduler.Ends.{
  Turns, turn, evaluate_until_stable_ends, evaluate_until_stable_settles,
}
use piperine.Digital.Scheduler.Nets.{last_value, touches, apply_events_writes}
use piperine.Digital.Scheduler.Safe.{Fits, evaluate_until_stable_safe}

abbrev Events : BinaryHeap (DigitalEvent ticks) (event_leq ticks)
Events = selection (event_leq ticks) (event_leq_total ticks) (event_leq_trans ticks)

abbrev invert : LogicValue → LogicValue
invert LogicValue.zero = LogicValue.one
invert LogicValue.one = LogicValue.zero
invert v = LogicValue.x

-- An inverter from net 0 to net 1 without delay.
abbrev inverter : Element ticks (Unit {0})
inverter = record {
  inputs = λ s. 0 ∷ [];
  outputs = λ s. 1 ∷ [];
  init = λ s. (s, []);
  seq_phase = λ ctx s. (s, false);
  comb_phase = λ ctx s.
      (s, record { net = 1; value = invert (get_or ctx.nets 0 LogicValue.x); delay = 0 } ∷ []);
  is_digital = λ s. true;
}

abbrev rise : DigitalEvent ticks
rise = record { time = 5; net = 0; value = LogicValue.one; source = 9; seq = 0 }

abbrev armed : DigitalState Events
armed = schedule Events (new Events 2) rise

abbrev limits : PlanLimits ticks
limits = record { max_delta_cycles = 10; digital_time_epsilon = 0 }

abbrev result : Run inverter Events × Status
result = evaluate_until_stable inverter Events limits 5 [] armed (tt ∷ [])

inverted : (result.0.state.nets ≡ LogicValue.one ∷ LogicValue.zero ∷ []) × (result.1 ≡ settled)
unfolding new schedule evaluate_until_stable until_loop conclude cycle fire pop_while pop_loop
    next_passing is_now selection event_leq has_more_at_t front_passes run_phases commit_registers
    comb_all emit_all emit has_input_on any_changed contains_net apply_events apply_event value_eq
inverted = (refl, refl)

resolve_least_upper_example :
    Says (resolve LogicValue.zero LogicValue.one) LogicValue.x
    ↔ (Says LogicValue.zero LogicValue.x × Says LogicValue.one LogicValue.x)
resolve_least_upper_example = resolve_least_upper LogicValue.zero LogicValue.one LogicValue.x

label-set_label_example :
    label_or_default Events (set_label Events armed 3 (b'q' ∷ [])) 1 ≡ anonymous 0
unfolding schedule new
label-set_label_example = label-set_label Events armed 3 1 (b'q' ∷ [])

set_label_mislabels_example :
    (label_or_default Events armed 1 ≡ anonymous 1)
    × (label_or_default Events (set_label Events armed 3 (b'q' ∷ [])) 1 ≢ anonymous 1)
unfolding schedule new
set_label_mislabels_example =
    set_label_mislabels Events armed 3 1 (b'q' ∷ []) (omega arith) (omega arith)

evaluate_until_stable_ends_example :
    (n : ℕ) × (u : Run inverter Events) × ((n ≡ 0) ⊎ (n < 10))
    × Turns inverter Events limits 5 [] n 0 (record { state = armed; devices = tt ∷ []; seq = 0 }) u
    × (turn inverter Events limits 5 [] n u ≡ stop result.0 result.1)
    × ((result.1 ≢ delta_limit) ⊎ (10 ≤ n + 1))
evaluate_until_stable_ends_example =
    evaluate_until_stable_ends inverter Events limits 5 [] armed (tt ∷ [])

result_settled : result.1 ≡ settled
result_settled = inverted.1

evaluate_until_stable_settles_example :
    Every
      (λ ev. not (is_now inverter Events limits 5 [] ev))
      (BinaryHeap.items Events result.0.state.event_queue)
evaluate_until_stable_settles_example =
    evaluate_until_stable_settles inverter Events limits 5 [] armed (tt ∷ []) result_settled
      (count_p-false (BinaryHeap.items Events result.0.state.event_queue))

evaluate_until_stable_safe_example :
    Fits inverter Events 2 armed.labels armed.checkpoint 1 result.0
    × ((result.1 ≡ settled) ⊎ (result.1 ≡ delta_limit))
unfolding schedule new selection
evaluate_until_stable_safe_example =
    evaluate_until_stable_safe inverter Events 2 (λ ctx s. refl) limits 5 [] armed (tt ∷ []) refl
      refl

abbrev fall : DigitalEvent ticks
fall = record rise { value = LogicValue.zero }

-- A pulse within one delta cycle marks its net, although the net ends as it was.
pulse :
    apply_events (rise ∷ fall ∷ []) (LogicValue.zero ∷ []) []
    ≡ some (LogicValue.zero ∷ [], 0 ∷ 0 ∷ [])
unfolding apply_events apply_event value_eq
pulse = refl

apply_events_writes_example :
    (length (LogicValue.zero ∷ []) ≡ length (LogicValue.zero ∷ []))
    × (some LogicValue.zero ≡ last_value (rise ∷ fall ∷ []) 0 (some LogicValue.zero))
    × ((contains_net (0 ∷ 0 ∷ []) 0 ≡ true) ⊎ (some LogicValue.zero ≡ some LogicValue.zero))
    × ((contains_net [] 0 ≡ false) ⊎ (contains_net (0 ∷ 0 ∷ []) 0 ≡ true))
    × ((contains_net (0 ∷ 0 ∷ []) 0 ≡ false)
        ⊎ ((contains_net [] 0 || touches (rise ∷ fall ∷ []) 0) ≡ true))
apply_events_writes_example =
    apply_events_writes (rise ∷ fall ∷ []) (LogicValue.zero ∷ []) (LogicValue.zero ∷ []) []
      (0 ∷ 0 ∷ []) 0 pulse
