-- ===== src/EventQueue/Examples.antt =====
-- Tests of the unified event queue, and its theorems at concrete queues.
use piperine.Common.{◌≡◌, refl, true, not, ◌&&◌, List, [], ◌∷◌, count_p, map}
use piperine.F64.{ticks}
use piperine.BinaryHeap.{BinaryHeap}
use piperine.BinaryHeap.Selection.{selection}
use piperine.EventQueue.Kinds.{kind_eq, target_eq, priority_eq, source_eq}
use piperine.EventQueue.Entry.{digital, breakpoint, scheduled_set, step_hint}
use piperine.Digital.Logic.{LogicValue}
use piperine.EventQueue.Entry.{
  EventEntry, entry_eq, entry_eq_iff, entry_leq, entry_leq_total, entry_leq_trans,
}
use piperine.EventQueue.Queue.{
  EventQueue, new, push, push_digital_event, push_breakpoint, push_scheduled_set, push_step_hint,
  length_of, is_due, next_due, drain_loop, drain_due, checkpoint, rollback, keep_loop, rebuild,
  restored_heap, is_transient, attempt, Action, pushes, drains, peek_next_time,
}
use piperine.EventQueue.Drain.{Sorted, Splits, drain_due-Splits}
use piperine.EventQueue.Rollback.{survives, rollback_attempt}

abbrev Entries : BinaryHeap (EventEntry ticks) (entry_leq ticks)
Entries = selection (entry_leq ticks) (entry_leq_total ticks) (entry_leq_trans ticks)

abbrev edge : EventEntry ticks
edge = digital ticks 3 0 "u1"

abbrev corner : EventEntry ticks
corner = breakpoint ticks 2 1 "v1"

abbrev hint : EventEntry ticks
hint = step_hint ticks 9 "r1"

-- A digital edge at 3, a breakpoint at 2 and a hint at 9.
abbrev mixed : EventQueue Entries
mixed = push Entries (push Entries (push Entries (new Entries) edge) corner) hint

drained_in_order :
    (map (λ e. e.time) (drain_due Entries 5 mixed).0 ≡ 2 ∷ 3 ∷ [])
    × (peek_next_time Entries mixed ≡ 2)
unfolding new push drain_due drain_loop next_due is_due peek_next_time selection entry_leq digital
    breakpoint step_hint
drained_in_order = (refl, refl)

-- The adapters push what the constructors build.
adapted : EventQueue Entries
unfolding new
adapted =
    push_step_hint Entries
      (push_scheduled_set Entries
        (push_breakpoint Entries
          (push_digital_event Entries (new Entries)
            (record { time = 3; net = 0; value = LogicValue.one; source = 0; seq = 0 }) "u1")
          2 1 "v1")
        7)
      9 "r1"

adapted_times :
    (map (λ e. e.time) (drain_due Entries 8 adapted).0 ≡ 2 ∷ 3 ∷ 7 ∷ [])
    × (length_of Entries adapted ≡ 4)
unfolding adapted push_digital_event push_breakpoint push_scheduled_set push_step_hint length_of new
    push drain_due drain_loop next_due is_due selection entry_leq digital breakpoint scheduled_set
    step_hint
adapted_times = (refl, refl)

-- A step to 5 is tried, which pushes a hint and drains, and is rejected.
abbrev step_to_5 : List (Action Entries)
step_to_5 = pushes (step_hint ticks 4 "r2") ∷ drains 5 ∷ []

restored_after_reject :
    map
      (λ e. e.time)
      (drain_due Entries 100
        (rollback Entries (attempt Entries step_to_5 (checkpoint Entries mixed)))).0
    ≡ 3 ∷ 9 ∷ []
unfolding new push drain_due drain_loop next_due is_due selection entry_leq attempt checkpoint
    rollback restored_heap rebuild is_transient keep_loop entry_eq kind_eq target_eq priority_eq
    source_eq digital breakpoint step_hint
restored_after_reject = refl

drain_due-Splits_example :
    Splits Entries 5 mixed.heap (drain_due Entries 5 mixed).0 (drain_due Entries 5 mixed).1.heap
    × Sorted (entry_leq ticks) (drain_due Entries 5 mixed).0
    × (count_p (is_due Entries 5) (BinaryHeap.items Entries (drain_due Entries 5 mixed).1.heap) ≡ 0)
drain_due-Splits_example = drain_due-Splits Entries 5 mixed

rollback_attempt_example :
    count_p
      (λ e. not (is_transient Entries e))
      (BinaryHeap.items Entries
        (rollback Entries (attempt Entries step_to_5 (checkpoint Entries mixed))).heap)
    ≡ count_p
        (λ e. not (is_transient Entries e) && survives Entries step_to_5 e)
        (BinaryHeap.items Entries mixed.heap)
rollback_attempt_example =
    rollback_attempt Entries mixed step_to_5 (λ e. not (is_transient Entries e))

entry_eq_iff_example :
    (entry_eq ticks edge corner ≡ true → edge ≡ corner)
    × (edge ≡ corner → entry_eq ticks edge corner ≡ true)
entry_eq_iff_example = entry_eq_iff ticks edge corner
