-- ===== src/Digital/Dag/Safe.antt =====
-- No index is out of bounds in `evaluate_dag_ordered`, what it leaves alone, and that it settles.
use piperine.Common.{
  ℕ, zero, suc, ◌+◌, ◌≡◌, ◌≤◌, ◌<◌, refl, subst, ◌⊎◌, inl, inr, Bool, true, false, not, ◌&&◌, List,
  [], ◌∷◌, Option, Option-cases, Bool-cases, ltb, leb, ◌==◌, arith, count_p-false, Every,
  Every-mono, length, Text, replicate, length-replicate,
}
use piperine.F64.{F64}
use piperine.BinaryHeap.{BinaryHeap, len}
use piperine.Digital.Event.{DigitalEvent, event_leq}
use piperine.Digital.State.{DigitalState, Checkpoint}
use piperine.Digital.Interface.{EvalCtx, Element}
use piperine.Digital.Scheduler.{
  PlanLimits, Status, settled, delta_limit, Run, is_now, has_more_at_t,
}
use piperine.Digital.Scheduler.Nets.{InRange}
use piperine.Digital.Scheduler.Ends.{none_now}
use piperine.Digital.Scheduler.Safe.{Fits}
use piperine.Digital.Dag.{
  DigitalTopology, Board, Sweep, run_of, dag_loop, propagate, evaluate_dag_ordered,
}
use piperine.Digital.Dag.Delivery.{Calm, drain_now-Calm}
use piperine.Digital.Dag.Passes.{Sound, Within, sample_all-some, turn-Sound}

List-cases {ℓ} : {A : Type ℓ} (xs : List A) → (xs ≡ []) ⊎ ((y : A) × (ys : List A) × (xs ≡ y ∷ ys))
List-cases [] = inl refl
List-cases (y ∷ ys) = inr (y, ys, refl)

Every-both {ℓ} :
    {A : Type ℓ} (p q : A → Bool) (xs : List A)
    → Every p xs
    → Every q xs
    → Every (λ x. p x && q x) xs
Every-both p q [] h k = refl
Every-both p q (x ∷ xs) h k = ground (arith, Every-both p q xs)

-- Every position that the topology names is in range for `m` elements.
pub record Ranked (topology : DigitalTopology) (m : ℕ) : Type 0 where
  pub order : Every (λ i. ltb i m) topology.topo_order
  pub edges :
      Every
        (λ e. ltb e.0 (length topology.topo_order) && leb e.1 (length topology.topo_order))
        topology.back_edges

module _ {F : F64} {S : Type 0} (E : Element F S) (H : BinaryHeap (DigitalEvent F) (event_leq F))
    (n : ℕ) (outs : (s : S) → Every (λ j. ltb j n) (E.outputs s))
    (drives : (ctx : EvalCtx F) (s : S) → Every (λ e. ltb e.net n) (E.comb_phase ctx s).1)
    (limits : PlanLimits F) (t : F64.Carrier F) (analog : List (F64.Carrier F)) where
  open F use {is_nan}
  open H use {items}

  -- How an evaluation may end, and what it keeps.
  abbrev Good :
      List Text → Option (Checkpoint H) → (DigitalEvent F → Bool) → ℕ → Run E H × Status → Type 0
  Good labels saved calm m out =
      Fits E H n labels saved m out.0
      × Every calm (items out.0.state.event_queue)
      × ((out.1 ≡ settled) ⊎ (out.1 ≡ delta_limit))

  module _ (labels : List Text) (saved : Option (Checkpoint H)) (calm : DigitalEvent F → Bool)
      (m : ℕ)
      (late : (ev : DigitalEvent F) → is_now E H limits t analog ev ≡ false → calm ev ≡ true) where
    Calm-Good :
        (b : Board E H) (devices : List S) (seq : ℕ) (status : Status)
        → Calm E H n calm labels saved b
        → length devices ≡ m
        → (status ≡ settled) ⊎ (status ≡ delta_limit)
        → Good labels saved calm m
            (record { state = b.state; devices = devices; seq = seq }, status)
    Calm-Good b devices seq status c count ends = (
      record {
        size = c.size;
        inside =
            Every-mono (λ ev. ltb ev.net n && calm ev) (λ ev. ltb ev.net n)
              (items b.state.event_queue) (λ ev h. ground arith) c.inside;
        labels_same = c.labels_same;
        saved_same = c.saved_same;
        count = count;
      },
      Every-mono (λ ev. ltb ev.net n && calm ev) calm (items b.state.event_queue)
          (λ ev h. ground arith) c.inside,
      ends,
    )

    Sound-Good :
        (k : ℕ) (w : Sweep E H) (status : Status)
        → Sound E H n outs drives labels saved calm m k w
        → (status ≡ settled) ⊎ (status ≡ delta_limit)
        → Good labels saved calm m (run_of E H w, status)
    unfolding run_of
    Sound-Good k w status sound ends =
        Calm-Good w.board w.devices w.seq status sound.board sound.count ends

    dag_loop-Good :
        (left iter restart_from : ℕ) (topology : DigitalTopology) (fired : List Bool)
        (w : Sweep E H)
        → Ranked topology m
        → restart_from ≤ length topology.topo_order
        → Sound E H n outs drives labels saved calm m (length topology.topo_order) w
        → Good labels saved calm m
            (dag_loop E H limits t analog left topology fired iter restart_from w)
    unfolding dag_loop
    dag_loop-Good zero iter restart_from topology fired w ranked h sound =
        Sound-Good (length topology.topo_order) w settled sound (inl refl)
    dag_loop-Good (suc left) iter restart_from topology fired w ranked h sound =
        let k = length topology.topo_order in
        let (w', next, e, sound', within) =
          turn-Sound E H n outs drives labels saved calm m k limits t analog late topology fired
            restart_from w refl ranked.order ranked.edges h sound in
        elim (Option-cases next) [
          | inl stop ↦ rw (e, dag_loop, stop) (Sound-Good k w' settled sound' (inl refl))
          | inr (pos, go) ↦
              let bound : pos ≤ k = subst (Within k) go within in
              let later = dag_loop-Good left (iter + 1) pos topology fired w' ranked bound sound' in
              elim (Bool-cases (iter + 1 == limits.max_delta_cycles)) [
                | inl cap ↦
                    rw (e, dag_loop, go, cap) (Sound-Good k w' delta_limit sound' (inr refl))
                | inr below ↦ rw (e, dag_loop, go, below) later
              ]
        ]

    propagate-Good :
        (topology : DigitalTopology) (devices : List S) (b : Board E H)
        → Ranked topology m
        → length devices ≡ m
        → Calm E H n calm labels saved b
        → Good labels saved calm m
            (propagate E H limits t analog topology devices b.state b.changed)
    unfolding propagate
    propagate-Good topology devices b ranked count c = elim (List-cases b.changed) [
      | inl e ↦ rw (e, propagate) (Calm-Good b devices 0 settled c count (inl refl))
      | inr (first, rest, e) ↦
          let k = length topology.topo_order in
          let ctx : EvalCtx F = record { time = t; nets = b.state.nets; analog = analog } in
          let ((devices', fired), e₁, count') =
            sample_all-some E H n outs drives labels saved calm m k ctx (first ∷ rest)
              topology.topo_order devices (replicate (length devices) false) ranked.order count in
          let start : Sweep E H = record {
            board = record { state = b.state; changed = first ∷ rest };
            devices = devices';
            seq = 0;
            output_changed_at = replicate k false;
          } in
          let sound : Sound E H n outs drives labels saved calm m k start = record {
            board = record {
              size = c.size;
              inside = c.inside;
              labels_same = c.labels_same;
              saved_same = c.saved_same;
            };
            count = count';
            marks = length-replicate k false;
          } in
          rw (e, propagate, e₁)
            (dag_loop-Good limits.max_delta_cycles 0 0 topology fired start ranked (omega arith)
              sound)
    ]

  module _ (topology : DigitalTopology) (state : DigitalState H) (devices : List S)
      (ranked : Ranked topology (length devices)) (size : length state.nets ≡ n)
      (inside : InRange n (items state.event_queue)) where
    -- From a queue whose events pass `before`, to one whose events pass `after`.
    evaluate-Good :
        (before after : DigitalEvent F → Bool)
        → ((ev : DigitalEvent F) → is_now E H limits t analog ev ≡ false → after ev ≡ true)
        → Every before (items state.event_queue)
        → ((r : Run E H)
            → has_more_at_t E H limits t analog r ≡ false
            → Every before (items r.state.event_queue)
            → Every after (items r.state.event_queue))
        → 0 < length topology.topo_order
        → Good state.labels state.checkpoint after
            (length devices)
            (evaluate_dag_ordered E H limits t analog topology state devices)
    unfolding evaluate_dag_ordered has_more_at_t
    evaluate-Good before after late early drained h =
        let start : Board E H = record { state = state; changed = [] } in
        let calm : Calm E H n before state.labels state.checkpoint start = record {
          size = size;
          inside = Every-both (λ ev. ltb ev.net n) before (items state.event_queue) inside early;
          labels_same = refl;
          saved_same = refl;
        } in
        let (b, e, c, ends) =
          drain_now-Calm E H n state.labels state.checkpoint before limits t analog
            (len H state.event_queue) start (omega arith) calm in
        let some_order : (length topology.topo_order == 0) ≡ false = ground arith in
        let settled_run : Run E H = record { state = b.state; devices = devices; seq = 0 } in
        let split =
          λ (p : DigitalEvent F → Bool)
              (into : (ev : DigitalEvent F) → (ltb ev.net n && before ev) ≡ true → p ev ≡ true).
            Every-mono (λ ev. ltb ev.net n && before ev) p (items b.state.event_queue) into
              c.inside in
        let c' : Calm E H n after state.labels state.checkpoint b = record {
          size = c.size;
          inside =
              Every-both (λ ev. ltb ev.net n) after (items b.state.event_queue)
                (split (λ ev. ltb ev.net n) (λ ev k. ground arith))
                (drained settled_run ends (split before (λ ev k. ground arith)));
          labels_same = c.labels_same;
          saved_same = c.saved_same;
        } in
        rw (evaluate_dag_ordered, some_order, e)
          (propagate-Good state.labels state.checkpoint after (length devices) late topology devices
            b ranked refl c')

    -- If the topology ranks the elements that there are, and the queued events, the outputs and all that
    -- the elements emit are on nets that exist, an evaluation settles or reports the limit of passes
    -- and never indexes out of bounds. It keeps the number of nets and of elements, the labels and the
    -- checkpoint, and leaves events on nets that exist.
    pub evaluate_dag_ordered_safe :
        Fits E H n state.labels state.checkpoint
          (length devices)
          (evaluate_dag_ordered E H limits t analog topology state devices).0
        × (((evaluate_dag_ordered E H limits t analog topology state devices).1 ≡ settled)
            ⊎ ((evaluate_dag_ordered E H limits t analog topology state devices).1 ≡ delta_limit))
    unfolding evaluate_dag_ordered
    evaluate_dag_ordered_safe = elim (Bool-cases (length topology.topo_order == 0)) [
      | inl e ↦
          rw (evaluate_dag_ordered, e)
            (
              record {
                size = size;
                inside = inside;
                labels_same = refl;
                saved_same = refl;
                count = refl;
              },
              inl refl,
            )
      | inr e ↦
          let (fits, _, ends) =
            evaluate-Good (λ ev. true) (λ ev. true) (λ ev _. refl)
              (count_p-false (items state.event_queue)) (λ r _ every. every) (ground arith) in
          (fits, ends)
    ]

    -- If the topology ranks the elements that there are and at least one, the queued events, the
    -- outputs and all that the elements emit are on nets that exist, and the times queued before
    -- are numbers, then every event left in the queue lies after the evaluation time.
    pub evaluate_dag_ordered_settles :
        0 < length topology.topo_order
        → Every (λ ev. not (is_nan ev.time)) (items state.event_queue)
        → Every
            (λ ev. not (is_now E H limits t analog ev))
            (items
              (evaluate_dag_ordered E H limits t analog topology state devices).0.state.event_queue)
    evaluate_dag_ordered_settles h numbers =
        let (_, after, _) =
          evaluate-Good (λ ev. not (is_nan ev.time)) (λ ev. not (is_now E H limits t analog ev))
            (λ ev e. rw e refl) numbers (λ r. none_now E H limits t analog r) h in
        after
