-- ===== src/Digital/Circuit/Rejected.antt =====
-- A digital state that is rolled back after any digital evaluations, and the state at power-on.
use piperine.Common.{subst, ℕ, ◌≡◌, refl, List, [], none, some, length, arith}
use piperine.F64.{F64}
use piperine.BinaryHeap.{BinaryHeap}
use piperine.Digital.Event.{DigitalEvent, event_leq}
use piperine.Digital.State.{Checkpoint, checkpoint, rollback}
use piperine.Digital.Scheduler.{PlanLimits}
use piperine.Digital.Dag.Safe.{Ranked}
use piperine.Digital.Topology.{build}
use piperine.Digital.Topology.Order.{build-Ranked}
use piperine.Digital.Circuit.{
  rebuild_digital_topology, MixedElement, CircuitInstance, run_digital_at, init_hook, seeded,
  init_digital, checkpointed, rolled_back, Action, attempt,
}
use piperine.Digital.Circuit.Sealed.{
  Drives, Wired, Ended, seeded-Wired, run_digital_at_with_analog-Wired, attempt-Wired,
}

module _ {F : F64} {S : Type 0} (E : MixedElement F S)
    (H : BinaryHeap (DigitalEvent F) (event_leq F)) (n : ℕ) (drives : Drives E H n)
    (limits : PlanLimits F) (zero_value : F64.Carrier F) (c : CircuitInstance E H)
    (wired : Wired E H n c.digital_state.labels c.digital_state.checkpoint
      (length c.devices)
      c) where
  -- Take a circuit whose elements drive nets that exist, whose queued events are on nets that
  -- exist, and whose topology, if it is built, ranks its elements. A rollback takes the digital
  -- state back to what it was at the checkpoint, with the nets, the queue and the labels of then
  -- and no checkpoint, whatever evaluations and accepted solutions lie between.
  pub rolled_back-attempt :
      (actions : List (Action E H limits zero_value))
      → (rolled_back E H limits zero_value (
          attempt E H limits zero_value actions
            (checkpointed E H limits zero_value c))).digital_state
        ≡ record c.digital_state { checkpoint = none }
  unfolding rolled_back checkpointed checkpoint rollback
  rolled_back-attempt actions =
      let saved : Checkpoint H = record {
        nets = c.digital_state.nets;
        queue = c.digital_state.event_queue;
        labels = c.digital_state.labels;
      } in
      let after =
        attempt-Wired E H n drives limits zero_value c.digital_state.labels (some saved)
          (length c.devices) actions (checkpointed E H limits zero_value c)
          (record {
            size = wired.size;
            inside = wired.inside;
            labels_same = refl;
            saved_same = refl;
            count = refl;
            ranked = wired.ranked;
          }) in
      rw (rolled_back, rollback, after.saved_same) refl

  -- Take a circuit whose elements drive nets that exist, whose queued events are on nets that
  -- exist, and whose topology, if it is built, ranks its elements. Power-on ends with success or
  -- with the limit reached, and leaves a circuit of that kind, with the labels, the checkpoint
  -- and the numbers of nets and elements it had.
  pub init_digital-Wired :
      Wired E H n c.digital_state.labels c.digital_state.checkpoint
        (length c.devices)
        (init_digital E H limits zero_value c).0
      × Ended (init_digital E H limits zero_value c).1
  unfolding init_digital run_digital_at init_hook
  init_digital-Wired =
      run_digital_at_with_analog-Wired E H n drives limits zero_value c.digital_state.labels
        c.digital_state.checkpoint (length c.devices) (seeded E H (init_hook E H) zero_value c)
        zero_value []
        (seeded-Wired E H n drives limits zero_value c.digital_state.labels
          c.digital_state.checkpoint (length c.devices) (init_hook E H) zero_value c
          (λ s. ground (arith, drives.start s)) wired)

  -- Rebuilding the topology leaves the circuit fit for evaluations.
  pub rebuild_digital_topology-Wired :
      Wired E H n c.digital_state.labels c.digital_state.checkpoint
        (length c.devices)
        (rebuild_digital_topology E H c)
  unfolding rebuild_digital_topology
  rebuild_digital_topology-Wired = record {
    size = wired.size;
    inside = wired.inside;
    labels_same = refl;
    saved_same = refl;
    count = refl;
    ranked = λ topo e.
        let same : build (E.digital) c.devices ≡ topo = cc in
        subst (λ t. Ranked t (length c.devices)) same (build-Ranked (E.digital) c.devices);
  }
