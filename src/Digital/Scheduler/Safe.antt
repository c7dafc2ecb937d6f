-- ===== src/Digital/Scheduler/Safe.antt =====
-- No index is out of bounds in `evaluate_until_stable`, and what it leaves alone.
use piperine.Common.{
  ℕ, zero, suc, ◌+◌, ◌≡◌, refl, sym, ap, ◌∙◌, subst, ◌⊎◌, inl, inr, Bool, not, ◌||◌, List, [], ◌∷◌,
  Option, some, if◌then◌else◌, ltb, arith, count_p-append, Every, length, map, length-map, Text,
}
use piperine.F64.{F64}
use piperine.BinaryHeap.{BinaryHeap}
use piperine.BinaryHeap.PopWhile.{pop_while, pop_while-Popped}
use piperine.Digital.Logic.{LogicValue}
use piperine.Digital.Event.{DigitalEvent, DigitalNet, event_leq}
use piperine.Digital.State.{DigitalState, Checkpoint}
use piperine.Digital.Interface.{EvalCtx, Emission, Element, has_input_on, emit, emit_all}
use piperine.Digital.Scheduler.{
  PlanLimits, Status, settled, delta_limit, apply_events, Run, commit_registers, comb_all,
  run_phases, is_now, Cycle, quiet, ran, faulted, fire, cycle, stop, again, conclude,
  evaluate_until_stable,
}
use piperine.Digital.Scheduler.Nets.{InRange, apply_events_writes, apply_events-InRange}
use piperine.Digital.Scheduler.Ends.{Turns, conclude_again, evaluate_until_stable_ends}

module _ {F : F64} {S : Type 0} (E : Element F S) (H : BinaryHeap (DigitalEvent F) (event_leq F))
    (n : ℕ) where
  -- The nets are `n`, the queued events are on nets that exist, and labels, checkpoint and the number of
  -- elements are as given.
  pub record Fits (labels : List Text) (saved : Option (Checkpoint H)) (m : ℕ) (r : Run E H)
      : Type 0 where
    pub size : length r.state.nets ≡ n
    pub inside : InRange n (BinaryHeap.items H r.state.event_queue)
    pub labels_same : r.state.labels ≡ labels
    pub saved_same : r.state.checkpoint ≡ saved
    pub count : length r.devices ≡ m

module _ {F : F64} {S : Type 0} (E : Element F S) (H : BinaryHeap (DigitalEvent F) (event_leq F))
    (n : ℕ)
    (drives : (ctx : EvalCtx F) (s : S) → Every (λ e. ltb e.net n) (E.comb_phase ctx s).1) where
  open F use {Carrier}
  open H use {Heap, items}

  pub emit_all-InRange :
      (queue : Heap) (t : Carrier) (source seq : ℕ) (es : List (Emission F))
      → InRange n (items queue)
      → Every (λ e. ltb e.net n) es
      → InRange n (items (emit_all H queue t source seq es).0)
  unfolding emit_all emit
  emit_all-InRange queue t source seq [] h k = h
  emit_all-InRange queue t source seq (e ∷ es) h k =
      let ev : DigitalEvent F = record {
        time = F.add t e.delay;
        net = e.net;
        value = e.value;
        source = source;
        seq = seq;
      } in
      let sent = emit H queue t source seq e in
      emit_all-InRange sent.0 t source sent.1 es
        (ground (arith, H.items-push queue ev (λ x. not (ltb x.net n)))) (ground arith)

  comb_all-InRange :
      (ctx : EvalCtx F) (changed : List DigitalNet) (i : ℕ) (devices : List (S × Bool))
      (queue : Heap) (seq : ℕ)
      → InRange n (items queue)
      → InRange n (items (comb_all E H ctx changed i devices queue seq).1)
        × (length (comb_all E H ctx changed i devices queue seq).0 ≡ length devices)
  unfolding comb_all
  comb_all-InRange ctx changed i [] queue seq h = (h, refl)
  comb_all-InRange ctx changed i ((s, fired) ∷ rest) queue seq h =
      let awake = fired || has_input_on E s changed in
      let step : S × List (Emission F) = if awake then E.comb_phase ctx s else (s, []) in
      let safe : Every (λ e. ltb e.net n) step.1 = ground (arith, drives ctx s) in
      let (inside, size) =
        comb_all-InRange ctx changed (i + 1) rest (emit_all H queue ctx.time i seq step.1).0
          (emit_all H queue ctx.time i seq step.1).1
          (emit_all-InRange queue ctx.time i seq step.1 h safe) in
      (inside, ap suc size)

  run_phases-Fits :
      (labels : List Text) (saved : Option (Checkpoint H)) (m : ℕ) (t : Carrier)
      (analog : List Carrier) (nets : List LogicValue) (changed : List DigitalNet) (r : Run E H)
      → length nets ≡ n
      → Fits E H n labels saved m r
      → Fits E H n labels saved m (run_phases E H t analog nets changed r)
  unfolding run_phases
  run_phases-Fits labels saved m t analog nets changed r h fits =
      let ctx : EvalCtx F = record { time = t; nets = nets; analog = analog } in
      let committed = map (commit_registers E H ctx changed) r.devices in
      let (inside, count) =
        comb_all-InRange ctx changed 0 committed r.state.event_queue r.seq fits.inside in
      record {
        size = h;
        inside = inside;
        labels_same = fits.labels_same;
        saved_same = fits.saved_same;
        count = count ∙ length-map (commit_registers E H ctx changed) r.devices ∙ fits.count;
      }

  module _ (labels : List Text) (saved : Option (Checkpoint H)) (m : ℕ) (limits : PlanLimits F)
      (t : Carrier) (analog : List Carrier) where
    -- A turn's outcome that keeps the invariant and is no panic.
    abbrev Good : Cycle E H limits t analog → Type 0
    Good (quiet r) = Fits E H n labels saved m r
    Good (ran r) = Fits E H n labels saved m r
    Good (faulted r) = ⊥

    fire_ran :
        (r : Run E H) (ev : DigitalEvent F) (evs : List (DigitalEvent F))
        (applied : List LogicValue × List DigitalNet)
        → apply_events (ev ∷ evs) r.state.nets [] ≡ some applied
        → fire E H limits t analog r (ev ∷ evs)
          ≡ ran (run_phases E H t analog applied.0 applied.1 r)
    unfolding fire
    fire_ran r ev evs applied e = rw (e, fire)

    fire-Good :
        (r : Run E H) (evs : List (DigitalEvent F))
        → Fits E H n labels saved m r
        → InRange n evs
        → Good (fire E H limits t analog r evs)
    unfolding fire
    fire-Good r [] fits inside = fits
    fire-Good r (ev ∷ evs) fits inside =
        let (applied, e) =
          apply_events-InRange (ev ∷ evs) r.state.nets []
            (subst (λ k. InRange k (ev ∷ evs)) (sym fits.size) inside) in
        let size = (apply_events_writes (ev ∷ evs) r.state.nets applied.0 [] applied.1 0 e).0 in
        subst Good (sym (fire_ran r ev evs applied e))
          (run_phases-Fits labels saved m t analog applied.0 applied.1 r (size ∙ fits.size) fits)

    cycle-Good : (r : Run E H) → Fits E H n labels saved m r → Good (cycle E H limits t analog r)
    unfolding cycle
    cycle-Good r fits =
        let test = is_now E H limits t analog in
        let popped = pop_while-Popped H test r.state.event_queue in
        let (taken, left) = pop_while H test r.state.event_queue in
        let outside = λ (ev : DigitalEvent F). not (ltb ev.net n) in
        let split : InRange n taken × InRange n (items left) =
          omega
            (arith, popped.same outside, fits.inside, count_p-append outside taken (items left)) in
        fire-Good _ taken
          (record {
            size = fits.size;
            inside = split.1;
            labels_same = fits.labels_same;
            saved_same = fits.saved_same;
            count = fits.count;
          })
          split.0

    again-Fits :
        (delta_count : ℕ) (c : Cycle E H limits t analog) (r : Run E H)
        → Good c
        → conclude E H limits t analog delta_count c ≡ again r
        → Fits E H n labels saved m r
    again-Fits delta_count c r good e =
        let (went, _, _) = conclude_again E H limits t analog delta_count c r e in
        subst Good went good

    Turns-Fits :
        (k delta_count : ℕ) (r u : Run E H)
        → Fits E H n labels saved m r
        → Turns E H limits t analog k delta_count r u
        → Fits E H n labels saved m u
    Turns-Fits zero delta_count r u fits turns = subst (Fits E H n labels saved m) turns fits
    Turns-Fits (suc k) delta_count r u fits (v, e, turns) =
        Turns-Fits k (delta_count + 1) v u
          (again-Fits delta_count (cycle E H limits t analog r) v (cycle-Good r fits) e) turns

    conclude_stop :
        (delta_count : ℕ) (c : Cycle E H limits t analog) (r : Run E H) (status : Status)
        → Good c
        → conclude E H limits t analog delta_count c ≡ stop r status
        → ((c ≡ quiet r) ⊎ (c ≡ ran r)) × ((status ≡ settled) ⊎ (status ≡ delta_limit))
    unfolding conclude
    conclude_stop delta_count (quiet u) r status good e = ground arith
    conclude_stop delta_count (faulted u) r status good e = absurd good
    conclude_stop delta_count (ran u) r status good e = ground arith

    stop-Fits :
        (c : Cycle E H limits t analog) (r : Run E H)
        → Good c
        → (c ≡ quiet r) ⊎ (c ≡ ran r)
        → Fits E H n labels saved m r
    stop-Fits c r good (inl e) = subst Good e good
    stop-Fits c r good (inr e) = subst Good e good

  -- If the queued events and all that the elements emit are on nets that exist, an evaluation settles
  -- or reports the limit of delta cycles and never indexes out of bounds. It keeps the number of nets
  -- and of elements, the labels and the checkpoint, and leaves events on nets that exist.
  pub evaluate_until_stable_safe :
      (limits : PlanLimits F) (t : Carrier) (analog : List Carrier) (state : DigitalState H)
      (devices : List S)
      → length state.nets ≡ n
      → InRange n (items state.event_queue)
      → Fits E H n state.labels state.checkpoint
          (length devices)
          (evaluate_until_stable E H limits t analog state devices).0
        × (((evaluate_until_stable E H limits t analog state devices).1 ≡ settled)
            ⊎ ((evaluate_until_stable E H limits t analog state devices).1 ≡ delta_limit))
  evaluate_until_stable_safe limits t analog state devices size inside =
      let begin : Run E H = record { state = state; devices = devices; seq = 0 } in
      let labels = state.labels in
      let saved = state.checkpoint in
      let m = length devices in
      let (k, u, _, turns, stops, _) =
        evaluate_until_stable_ends E H limits t analog state devices in
      let out = evaluate_until_stable E H limits t analog state devices in
      let fits : Fits E H n labels saved m begin = record {
        size = size;
        inside = inside;
        labels_same = refl;
        saved_same = refl;
        count = refl;
      } in
      let good =
        cycle-Good labels saved m limits t analog u
          (Turns-Fits labels saved m limits t analog k 0 begin u fits turns) in
      let (went, status) =
        conclude_stop labels saved m limits t analog k _ out.0 out.1 good stops in
      (stop-Fits labels saved m limits t analog _ out.0 good went, status)
