-- ===== src/Digital/Circuit/Sealed.antt =====
-- Digital evaluation within a circuit: no index is out of bounds, and a rollback undoes it.
use piperine.Common.{
  ℕ, suc, ◌+◌, ◌≡◌, refl, sym, ap, ◌∙◌, subst, ◌⊎◌, inl, inr, not, List, [], ◌∷◌, Option, some,
  Option-cases, ltb, arith, Every, length, Text,
}
use piperine.F64.{F64}
use piperine.BinaryHeap.{BinaryHeap}
use piperine.History
use piperine.History.{CircularArrayBuffer}
use piperine.History.Window.{new_some, push_fits}
use piperine.Digital.Logic.{LogicValue}
use piperine.Digital.Event.{DigitalEvent, event_leq}
use piperine.Digital.State.{DigitalState, Checkpoint, schedule}
use piperine.Digital.Interface.{EvalCtx, Emission, Element, emit_all}
use piperine.Digital.Scheduler.{
  PlanLimits, Status, settled, delta_limit, Run, evaluate_until_stable,
}
use piperine.Digital.Scheduler.Nets.{InRange}
use piperine.Digital.Scheduler.Safe.{Fits, emit_all-InRange, evaluate_until_stable_safe}
use piperine.Digital.Dag.{DigitalTopology, evaluate_dag_ordered}
use piperine.Digital.Dag.Safe.{Ranked, evaluate_dag_ordered_safe}
use piperine.Digital.Circuit.{
  MixedElement, CircuitInstance, seed_all, schedule_all, seeded, with_run,
  run_digital_at_with_analog, run_digital_at, build_accept_state, seed_digital_from_accept_hooks,
  moved, accept_and_run_digital, Action, runs, accepts, attempt,
}

-- An evaluation ended without a panic.
abbrev pub Ended : Status → Type 0
Ended status = (status ≡ settled) ⊎ (status ≡ delta_limit)

module _ {F : F64} {S : Type 0} (E : MixedElement F S)
    (H : BinaryHeap (DigitalEvent F) (event_leq F)) (n : ℕ) where
  open F use {Carrier}
  open H use {Heap, items}

  -- All that an element drives is on nets that exist.
  pub record Drives : Type 0 where
    pub outs : (s : S) → Every (λ j. ltb j n) (Element.outputs (E.digital) s)
    pub comb :
        (ctx : EvalCtx F) (s : S)
        → Every (λ e. ltb e.net n) (Element.comb_phase (E.digital) ctx s).1
    pub start : (s : S) → Every (λ e. ltb e.net n) (Element.init (E.digital) s).1
    pub accept :
        (state : CircularArrayBuffer Carrier) (t : Carrier) (nets : List LogicValue) (s : S)
        → Every (λ e. ltb e.net n) (E.accept_timestep state t nets s).1

  -- The circuit has `n` nets and `m` elements, its events are on nets that exist, and its topology, if
  -- it is built, ranks its elements. Labels and checkpoint are as given.
  pub record Wired (labels : List Text) (saved : Option (Checkpoint H)) (m : ℕ)
      (c : CircuitInstance E H) : Type 0 where
    pub size : length c.digital_state.nets ≡ n
    pub inside : InRange n (items c.digital_state.event_queue)
    pub labels_same : c.digital_state.labels ≡ labels
    pub saved_same : c.digital_state.checkpoint ≡ saved
    pub count : length c.devices ≡ m
    pub ranked : (topo : DigitalTopology) → c.digital_topology ≡ some topo → Ranked topo m

module _ {F : F64} {S : Type 0} (E : MixedElement F S)
    (H : BinaryHeap (DigitalEvent F) (event_leq F)) (n : ℕ) (drives : Drives E H n)
    (limits : PlanLimits F) (zero_value : F64.Carrier F) (labels : List Text)
    (saved : Option (Checkpoint H)) (m : ℕ) where
  open F use {Carrier}
  open H use {Heap, items}

  seed_all-InRange :
      (hook : S → S × List (Emission F)) (t : Carrier) (i : ℕ) (devices : List S) (queue : Heap)
      (seq : ℕ)
      → ((s : S) → Every (λ e. ltb e.net n) (hook s).1)
      → InRange n (items queue)
      → InRange n (items (seed_all E H hook t i devices queue seq).1)
        × (length (seed_all E H hook t i devices queue seq).0 ≡ length devices)
  unfolding seed_all
  seed_all-InRange hook t i [] queue seq h inside = (inside, refl)
  seed_all-InRange hook t i (s ∷ rest) queue seq h inside =
      let sent = emit_all H queue t i seq (hook s).1 in
      let (later, size) =
        seed_all-InRange hook t (i + 1) rest sent.0 sent.1 h
          (emit_all-InRange (E.digital) H n drives.comb queue t i seq (hook s).1 inside (h s)) in
      (later, ap suc size)

  schedule_all-keeps :
      (evs : List (DigitalEvent F)) (state : DigitalState H)
      → InRange n evs
      → InRange n (items state.event_queue)
      → ((schedule_all E H evs state).nets ≡ state.nets)
        × ((schedule_all E H evs state).labels ≡ state.labels)
        × ((schedule_all E H evs state).checkpoint ≡ state.checkpoint)
        × InRange n (items (schedule_all E H evs state).event_queue)
  unfolding schedule_all schedule
  schedule_all-keeps [] state h inside = (refl, refl, refl, inside)
  schedule_all-keeps (ev ∷ evs) state h inside =
      let same = H.items-push state.event_queue ev (λ x. not (ltb x.net n)) in
      schedule_all-keeps evs (schedule H state ev) (ground arith) (ground arith)

  pub seeded-Wired :
      (hook : S → S × List (Emission F)) (t : Carrier) (c : CircuitInstance E H)
      → ((s : S) → Every (λ e. ltb e.net n) (hook s).1)
      → Wired E H n labels saved m c
      → Wired E H n labels saved m (seeded E H hook t c)
  unfolding seeded
  seeded-Wired hook t c h wired =
      let empty : InRange n (items H.new) = rw H.items-new refl in
      let (sent, count) = seed_all-InRange hook t 0 c.devices H.new 0 h empty in
      let (nets, names, saves, inside) =
        schedule_all-keeps (items (seed_all E H hook t 0 c.devices H.new 0).1) c.digital_state sent
          wired.inside in
      record {
        size = ap length nets ∙ wired.size;
        inside = inside;
        labels_same = names ∙ wired.labels_same;
        saved_same = saves ∙ wired.saved_same;
        count = count ∙ wired.count;
        ranked = wired.ranked;
      }

  as_given :
      (r : Run (E.digital) H) (c : CircuitInstance E H)
      → Wired E H n labels saved m c
      → Fits (E.digital) H n c.digital_state.labels c.digital_state.checkpoint (length c.devices) r
      → Fits (E.digital) H n labels saved m r
  as_given r c wired fits = record {
    size = fits.size;
    inside = fits.inside;
    labels_same = fits.labels_same ∙ wired.labels_same;
    saved_same = fits.saved_same ∙ wired.saved_same;
    count = fits.count ∙ wired.count;
  }

  with_run-Wired :
      (c : CircuitInstance E H) (out : Run (E.digital) H × Status)
      → ((topo : DigitalTopology) → c.digital_topology ≡ some topo → Ranked topo m)
      → Fits (E.digital) H n labels saved m out.0
      → Wired E H n labels saved m (with_run E H c out).0
  unfolding with_run
  with_run-Wired c out ranked fits = record {
    size = fits.size;
    inside = fits.inside;
    labels_same = fits.labels_same;
    saved_same = fits.saved_same;
    count = fits.count;
    ranked = ranked;
  }

  -- Whichever evaluator runs, a digital evaluation of a circuit whose elements drive nets that exist ends
  -- with success or with the limit reached and not with an index out of bounds, and it leaves the
  -- circuit fit for another one, with the labels and the checkpoint it had.
  pub run_digital_at_with_analog-Wired :
      (c : CircuitInstance E H) (t : Carrier) (analog : List Carrier)
      → Wired E H n labels saved m c
      → Wired E H n labels saved m (run_digital_at_with_analog E H limits zero_value c t analog).0
        × Ended (run_digital_at_with_analog E H limits zero_value c t analog).1
  unfolding run_digital_at_with_analog with_run
  run_digital_at_with_analog-Wired c t analog wired = elim (Option-cases c.digital_topology) [
    | inl e ↦
        let out = evaluate_until_stable (E.digital) H limits t analog c.digital_state c.devices in
        let (fits, ended) =
          evaluate_until_stable_safe (E.digital) H n drives.comb limits t analog c.digital_state
            c.devices wired.size wired.inside in
        rw (e, run_digital_at_with_analog)
          (with_run-Wired c out wired.ranked (as_given out.0 c wired fits), ended)
    | inr (topo, e) ↦
        let out =
          evaluate_dag_ordered (E.digital) H limits t analog topo c.digital_state c.devices in
        let (fits, ended) =
          evaluate_dag_ordered_safe (E.digital) H n drives.outs drives.comb limits t analog topo
            c.digital_state c.devices (subst (Ranked topo) (sym wired.count) (wired.ranked topo e))
            wired.size wired.inside in
        rw (e, run_digital_at_with_analog)
          (with_run-Wired c out wired.ranked (as_given out.0 c wired fits), ended)
  ]

  build_accept_state-some :
      (solution : List Carrier)
      → (state : CircularArrayBuffer Carrier) × (build_accept_state E H limits zero_value solution
          ≡ some state)
  unfolding build_accept_state
  build_accept_state-some solution =
      let (ring, made, width) = new_some zero_value 1 (length solution) (omega arith) in
      elim (Option-cases (History.push ring solution)) [
        | inl e ↦ absurd (push_fits ring solution (sym width) e)
        | inr (state, e) ↦ (state, rw (made, build_accept_state) e)
      ]

  -- Take a circuit whose elements drive nets that exist, whose queued events are on nets that
  -- exist, and whose topology, if it is built, ranks its elements. Accepting a solution of the
  -- analog side fails no assertion and indexes nothing out of bounds: the digital evaluation that
  -- follows ends with success or with the limit reached, and leaves a circuit of that kind, with
  -- the labels, the checkpoint and the numbers of nets and elements it had.
  pub accept_and_run_digital-Wired :
      (c : CircuitInstance E H) (solution : List Carrier) (t : Carrier)
      → Wired E H n labels saved m c
      → Wired E H n labels saved m (accept_and_run_digital E H limits zero_value c solution t).0
        × Ended (accept_and_run_digital E H limits zero_value c solution t).1
  unfolding accept_and_run_digital seed_digital_from_accept_hooks moved
  accept_and_run_digital-Wired c solution t wired =
      let (state, e) = build_accept_state-some solution in
      rw (accept_and_run_digital, e)
        (run_digital_at_with_analog-Wired
          (seeded E H (E.accept_timestep state t c.digital_state.nets) t c) t solution
          (seeded-Wired (E.accept_timestep state t c.digital_state.nets) t c
            (drives.accept state t c.digital_state.nets) wired))

  pub attempt-Wired :
      (actions : List (Action E H limits zero_value)) (c : CircuitInstance E H)
      → Wired E H n labels saved m c
      → Wired E H n labels saved m (attempt E H limits zero_value actions c)
  unfolding attempt run_digital_at
  attempt-Wired [] c wired = wired
  attempt-Wired (runs t ∷ rest) c wired =
      attempt-Wired rest _ (run_digital_at_with_analog-Wired c t [] wired).0
  attempt-Wired (accepts solution t ∷ rest) c wired =
      attempt-Wired rest _ (accept_and_run_digital-Wired c solution t wired).0
