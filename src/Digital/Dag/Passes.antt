-- ===== src/Digital/Dag/Passes.antt =====
-- The passes of `evaluate_dag_ordered` over the elements: no index is out of bounds.
use piperine.Common.{
  ℕ, zero, suc, ◌+◌, ◌≡◌, ◌≤◌, ◌<◌, refl, sym, ◌∙◌, subst, inl, inr, Bool, true, false, ◌&&◌, ◌||◌,
  List, [], ◌∷◌, Option, none, some, Bool-cases, if◌then◌else◌, ltb, leb, arith, Every, length,
  Text, get_elem?, get_or, set, length-set, replicate, length-replicate,
}
use piperine.F64.{F64}
use piperine.BinaryHeap.{BinaryHeap, len}
use piperine.Digital.Logic.{LogicValue, value_eq}
use piperine.Digital.Event.{DigitalEvent, DigitalNet, event_leq}
use piperine.Digital.State.{Checkpoint}
use piperine.Digital.Interface.{EvalCtx, Element, emit_all, has_input_on}
use piperine.Digital.Scheduler.{PlanLimits, is_now}
use piperine.Digital.Scheduler.Nets.{InRange}
use piperine.Digital.Scheduler.Safe.{emit_all-InRange}
use piperine.Digital.Dag.{
  DigitalTopology, read_all, any_differs, outputs_differ, earlier, next_restart, slice_from, Sweep,
  sample_all, settle_device, visit, pass, turn,
}
use piperine.Digital.Dag.Delivery.{Calm, route_all-Calm}

get_elem?-some {ℓ} :
    {A : Type ℓ} (xs : List A) (i : ℕ) → i < length xs → (a : A) × (get_elem? xs i ≡ some a)
get_elem?-some [] i h = elim h [ ]
get_elem?-some (x ∷ xs) zero h = (x, refl)
get_elem?-some (x ∷ xs) (suc i) h = get_elem?-some xs i (omega arith)

read_all-some :
    (nets : List LogicValue) (ns : List DigitalNet)
    → Every (λ j. ltb j (length nets)) ns
    → (vs : List LogicValue) × (read_all nets ns ≡ some vs)
unfolding read_all
read_all-some nets [] h = ([], refl)
read_all-some nets (m ∷ ns) h =
    let (v, e) = get_elem?-some nets m (ground arith) in
    let (vs, later) = read_all-some nets ns (ground arith) in (v ∷ vs, rw (e, read_all, later) refl)

any_differs-some :
    (nets : List LogicValue) (ns : List DigitalNet) (prev : List LogicValue)
    → Every (λ j. ltb j (length nets)) ns
    → (d : Bool) × (any_differs nets ns prev ≡ some d)
unfolding any_differs
any_differs-some nets [] prev h = (false, refl)
any_differs-some nets (m ∷ ns) [] h = (false, refl)
any_differs-some nets (m ∷ ns) (old ∷ olds) h =
    let (v, e) = get_elem?-some nets m (ground arith) in
    let (d, later) = any_differs-some nets ns olds (ground arith) in
    (if value_eq v old then d else true, rw (e, any_differs, later) (ground arith))

outputs_differ-some :
    (nets : List LogicValue) (ns : List DigitalNet) (prev : List LogicValue)
    → Every (λ j. ltb j (length nets)) ns
    → (d : Bool) × (outputs_differ nets ns prev ≡ some d)
unfolding outputs_differ
outputs_differ-some nets [] prev h = (true, refl)
outputs_differ-some nets (m ∷ ns) prev h = any_differs-some nets (m ∷ ns) prev h

-- The position of a restart is within the order.
abbrev pub Within : ℕ → Option ℕ → Type 0
Within k none = Unit {0}
Within k (some pos) = pos ≤ k

earlier-Within : (k dst : ℕ) (best : Option ℕ) → dst ≤ k → Within k best → earlier best dst ≤ k
unfolding earlier
earlier-Within k dst none h w = h
earlier-Within k dst (some cur) h w = ground arith

next_restart-Within :
    (k : ℕ) (changed_at : List Bool) (edges : List (ℕ × ℕ)) (best : Option ℕ)
    → Every (λ e. ltb e.0 (length changed_at) && leb e.1 k) edges
    → Within k best
    → (next : Option ℕ) × (next_restart changed_at edges best ≡ some next) × Within k next
unfolding next_restart
next_restart-Within k changed_at [] best h w = (best, refl, w)
next_restart-Within k changed_at ((src, dst) ∷ edges) best h w =
    let (c, e) = get_elem?-some changed_at src (ground arith) in
    let best' : Option ℕ = if c then some (earlier best dst) else best in
    let w' : Within k best' = elim (Bool-cases c) [
      | inl set_c ↦ rw set_c (earlier-Within k dst best (ground arith) w)
      | inr clear ↦ rw clear w
    ] in
    let (next, later, within) = next_restart-Within k changed_at edges best' (ground arith) w' in
    (next, rw (e, next_restart) later, within)

slice_from-some :
    (p : ℕ → Bool) (k : ℕ) (xs : List ℕ)
    → k ≤ length xs
    → Every p xs
    → (ys : List ℕ) × (slice_from k xs ≡ some ys) × Every p ys
unfolding slice_from
slice_from-some p zero xs h every = (xs, refl, every)
slice_from-some p (suc k) [] h every = elim h [ ]
slice_from-some p (suc k) (x ∷ xs) h every = slice_from-some p k xs (omega arith) (ground arith)

module _ {F : F64} {S : Type 0} (E : Element F S) (H : BinaryHeap (DigitalEvent F) (event_leq F))
    (n : ℕ) (outs : (s : S) → Every (λ j. ltb j n) (E.outputs s))
    (drives : (ctx : EvalCtx F) (s : S) → Every (λ e. ltb e.net n) (E.comb_phase ctx s).1)
    (labels : List Text) (saved : Option (Checkpoint H)) (calm : DigitalEvent F → Bool)
    (m k : ℕ) where
  open H use {Heap, items}

  pub sample_all-some :
      (ctx : EvalCtx F) (changed : List DigitalNet) (order : List ℕ) (devices : List S)
      (fired : List Bool)
      → Every (λ i. ltb i m) order
      → length devices ≡ m
      → (r : List S × List Bool) × (sample_all E H ctx changed order (devices, fired) ≡ some r)
        × (length r.0 ≡ m)
  unfolding sample_all
  sample_all-some ctx changed [] devices fired h size = ((devices, fired), refl, size)
  sample_all-some ctx changed (i ∷ order) devices fired h size =
      let (s, e) = get_elem?-some devices i (ground (arith, size)) in
      let (s', f) = E.seq_phase ctx s in
      let next : List S × List Bool =
        if has_input_on E s changed then (set devices i s', set fired i f) else (devices, fired) in
      let kept : length next.0 ≡ m = elim (Bool-cases (has_input_on E s changed)) [
        | inl c ↦ rw c (length-set devices i s' ∙ size)
        | inr c ↦ rw c size
      ] in
      let (r, later, same) = sample_all-some ctx changed order next.0 next.1 (ground arith) kept in
      (r, rw (e, sample_all) later, same)

  -- The board is calm, and the numbers of elements and of marks are `m` and `k`.
  pub record Sound (w : Sweep E H) : Type 0 where
    pub board : Calm E H n calm labels saved w.board
    pub count : length w.devices ≡ m
    pub marks : length w.output_changed_at ≡ k

  module _ (limits : PlanLimits F) (t : F64.Carrier F) (analog : List (F64.Carrier F))
      (late : (ev : DigitalEvent F) → is_now E H limits t analog ev ≡ false → calm ev ≡ true) where
    settle_device-Sound :
        (pos i : ℕ) (s : S) (w : Sweep E H)
        → Sound w
        → (w' : Sweep E H) × (settle_device E H limits t analog pos i s w ≡ some w') × Sound w'
    unfolding settle_device
    settle_device-Sound pos i s w sound =
        let nets = w.board.state.nets in
        let ctx : EvalCtx F = record { time = t; nets = nets; analog = analog } in
        let s' = (E.comb_phase ctx s).0 in
        let sent = emit_all H H.new t i w.seq (E.comb_phase ctx s).1 in
        let empty : InRange n (items H.new) = rw H.items-new refl in
        let local : InRange n (items sent.0) =
          emit_all-InRange E H n drives H.new t i w.seq (E.comb_phase ctx s).1 empty
            (drives ctx s) in
        let (prev, e) =
          read_all-some nets (E.outputs s)
            (subst (λ j. Every (λ x. ltb x j) (E.outputs s)) (sym sound.board.size) (outs s)) in
        let (b, e₁, c) =
          route_all-Calm E H n labels saved calm limits t analog late (len H sent.0) sent.0 w.board
            local sound.board in
        let (d, e₂) =
          outputs_differ-some b.state.nets (E.outputs s') prev
            (subst (λ j. Every (λ x. ltb x j) (E.outputs s')) (sym c.size) (outs s')) in
        (
          record {
            board = b;
            devices = set w.devices i s';
            seq = sent.1;
            output_changed_at = set w.output_changed_at pos d;
          },
          rw (e, settle_device, e₁, e₂) refl,
          record {
            board = c;
            count = length-set w.devices i s' ∙ sound.count;
            marks = length-set w.output_changed_at pos d ∙ sound.marks;
          },
        )

    visit-Sound :
        (fired : List Bool) (pos i : ℕ) (w : Sweep E H)
        → i < m
        → Sound w
        → (w' : Sweep E H) × (visit E H limits t analog fired pos i w ≡ some w') × Sound w'
    unfolding visit
    visit-Sound fired pos i w h sound =
        let (s, e) = get_elem?-some w.devices i (rw sound.count h) in
        let awake = E.is_digital s && (has_input_on E s w.board.changed || get_or fired i false) in
        elim (Bool-cases awake) [
          | inl c ↦
              let (w', e', sound') = settle_device-Sound pos i s w sound in
              (w', rw (e, visit, c) e', sound')
          | inr c ↦ (w, rw (e, visit, c) refl, sound)
        ]

    pass-Sound :
        (fired : List Bool) (pos : ℕ) (order : List ℕ) (w : Sweep E H)
        → Every (λ i. ltb i m) order
        → Sound w
        → (w' : Sweep E H) × (pass E H limits t analog fired pos order w ≡ some w') × Sound w'
    unfolding pass
    pass-Sound fired pos [] w h sound = (w, refl, sound)
    pass-Sound fired pos (i ∷ order) w h sound =
        let (w₁, e₁, sound₁) = visit-Sound fired pos i w (ground arith) sound in
        let (w', e', sound') = pass-Sound fired (pos + 1) order w₁ (ground arith) sound₁ in
        (w', rw (pass, e₁) e', sound')

    pub turn-Sound :
        (topology : DigitalTopology) (fired : List Bool) (restart_from : ℕ) (w : Sweep E H)
        → length topology.topo_order ≡ k
        → Every (λ i. ltb i m) topology.topo_order
        → Every (λ e. ltb e.0 k && leb e.1 k) topology.back_edges
        → restart_from ≤ k
        → Sound w
        → (w' : Sweep E H) × (next : Option ℕ) × (turn E H limits t analog topology fired
              restart_from w
            ≡ some (w', next))
          × Sound w'
          × Within k next
    unfolding turn
    turn-Sound topology fired restart_from w size order edges h sound =
        let (rest, e, every) =
          slice_from-some (λ i. ltb i m) restart_from topology.topo_order (rw size h) order in
        let cleared = replicate (length topology.topo_order) false in
        let (w', e₁, sound') =
          pass-Sound fired restart_from rest (record w { output_changed_at = cleared }) every
            (record {
              board = sound.board;
              count = sound.count;
              marks = length-replicate (length topology.topo_order) false ∙ size;
            }) in
        let (next, e₂, within) =
          next_restart-Within k w'.output_changed_at topology.back_edges none
            (subst (λ j. Every (λ e. ltb e.0 j && leb e.1 k) topology.back_edges) (sym sound'.marks)
              edges)
            tt in
        (w', next, rw (e, turn, e₁, e₂) refl, sound', within)
