-- ===== src/Digital/Dag/Delivery.antt =====
-- What becomes of the events in `evaluate_dag_ordered`: no index is out of bounds.
use piperine.Common.{
  ℕ, zero, suc, ◌≡◌, ◌≤◌, ◌<◌, refl, sym, ◌∙◌, subst, inl, inr, Bool, true, false, not, ◌&&◌, List,
  Option, some, Option-cases, Bool-cases, ltb, arith, count_p-true, Every, length, Text,
}
use piperine.F64.{F64}
use piperine.BinaryHeap.{BinaryHeap, len}
use piperine.BinaryHeap.PopWhile.{
  next_passing, next_passing-some, next_passing-none, front_passes, front_passes-empty,
}
use piperine.Digital.Event.{DigitalEvent, event_leq}
use piperine.Digital.State.{Checkpoint}
use piperine.Digital.Interface.{Element}
use piperine.Digital.Scheduler.{PlanLimits, apply_event, is_now}
use piperine.Digital.Scheduler.Nets.{InRange, apply_event_at, apply_event-none}
use piperine.Digital.Dag.{Board, write_net, with_queue, drain_now, route, route_all}

module _ {F : F64} {S : Type 0} (E : Element F S) (H : BinaryHeap (DigitalEvent F) (event_leq F))
    (n : ℕ) where
  open H use {Heap, items}

  -- The nets are `n`; the queued events are on nets that exist and pass the test `calm`; labels and
  -- checkpoint are as given.
  pub record Calm (calm : DigitalEvent F → Bool) (labels : List Text)
      (saved : Option (Checkpoint H)) (b : Board E H) : Type 0 where
    pub size : length b.state.nets ≡ n
    pub inside : Every (λ ev. ltb ev.net n && calm ev) (items b.state.event_queue)
    pub labels_same : b.state.labels ≡ labels
    pub saved_same : b.state.checkpoint ≡ saved

  module _ (labels : List Text) (saved : Option (Checkpoint H)) (calm : DigitalEvent F → Bool) where
    write_net-Calm :
        (ev : DigitalEvent F) (b : Board E H)
        → ev.net < n
        → Calm calm labels saved b
        → (b' : Board E H) × (write_net E H ev b ≡ some b')
          × Calm calm labels saved b'
          × (b'.state.event_queue ≡ b.state.event_queue)
    unfolding write_net
    write_net-Calm ev b h c = elim (Option-cases (apply_event ev b.state.nets b.changed)) [
      | inl e ↦ absurd (apply_event-none ev b.state.nets b.changed (rw c.size h) e)
      | inr ((nets, changed), e) ↦
          let long = (apply_event_at ev b.state.nets nets b.changed changed 0 e).0 in
          (
            record { state = record b.state { nets = nets }; changed = changed },
            rw (e, write_net) refl,
            record {
              size = long ∙ c.size;
              inside = c.inside;
              labels_same = c.labels_same;
              saved_same = c.saved_same;
            },
            refl,
          )
    ]

    with_queue-Calm :
        (b : Board E H) (queue : Heap)
        → Every (λ ev. ltb ev.net n && calm ev) (items queue)
        → Calm calm labels saved b
        → Calm calm labels saved (with_queue E H b queue)
    unfolding with_queue
    with_queue-Calm b queue inside c = record {
      size = c.size;
      inside = inside;
      labels_same = c.labels_same;
      saved_same = c.saved_same;
    }

    module _ (limits : PlanLimits F) (t : F64.Carrier F) (analog : List (F64.Carrier F)) where
      -- The drain meets no index out of bounds, and with enough fuel it ends with no event due in front.
      pub drain_now-Calm :
          (fuel : ℕ) (b : Board E H)
          → len H b.state.event_queue ≤ fuel
          → Calm calm labels saved b
          → (b' : Board E H) × (drain_now E H limits t analog fuel b ≡ some b')
            × Calm calm labels saved b'
            × (front_passes H (is_now E H limits t analog) b'.state.event_queue ≡ false)
      unfolding drain_now with_queue
      drain_now-Calm zero b bound c =
          (b, refl, c, front_passes-empty H (is_now E H limits t analog) b.state.event_queue bound)
      drain_now-Calm (suc fuel) b bound c =
          elim (Option-cases (next_passing H (is_now E H limits t analog) b.state.event_queue)) [
            | inl e ↦ (
              b,
              rw (e, drain_now) refl,
              c,
              next_passing-none H (is_now E H limits t analog) b.state.event_queue e,
            )
            | inr ((ev, rest), e) ↦
                let test = is_now E H limits t analog in
                let (_, popped) = next_passing-some H test b.state.event_queue rest ev e in
                let same = H.pop_some b.state.event_queue rest ev popped in
                let outside = λ (x : DigitalEvent F). not (ltb x.net n && calm x) in
                let inside : Every (λ x. ltb x.net n && calm x) (items rest) =
                  ground (arith, same outside, c.inside) in
                let here : ev.net < n = ground (arith, same outside, c.inside) in
                let fewer : len H rest ≤ fuel = omega (
                  arith,
                  same (λ _. true),
                  count_p-true (items b.state.event_queue),
                  count_p-true (items rest),
                ) in
                let (b₁, e₁, c₁, kept) =
                  write_net-Calm ev (with_queue E H b rest) here
                    (with_queue-Calm b rest inside c) in
                let (b', e', c', ends) =
                  drain_now-Calm fuel b₁ (subst (λ q. len H q ≤ fuel) (sym kept) fewer) c₁ in
                (b', rw (e, drain_now, e₁) e', c', ends)
          ]

      module _
          (late : (ev : DigitalEvent F)
            → is_now E H limits t analog ev ≡ false
            → calm ev ≡ true) where
        route-Calm :
            (ev : DigitalEvent F) (b : Board E H)
            → ev.net < n
            → Calm calm labels saved b
            → (b' : Board E H) × (route E H limits t analog ev b ≡ some b')
              × Calm calm labels saved b'
        unfolding route
        route-Calm ev b h c = elim (Bool-cases (is_now E H limits t analog ev)) [
          | inl e ↦ let (b', e', c', _) = write_net-Calm ev b h c in (b', rw (e, route) e', c')
          | inr e ↦
              let queue = H.push b.state.event_queue ev in
              let same = H.items-push b.state.event_queue ev (λ x. not (ltb x.net n && calm x)) in
              let inside : Every (λ x. ltb x.net n && calm x) (items queue) =
                ground (arith, same, c.inside, late ev e) in
              (with_queue E H b queue, rw (e, route) refl, with_queue-Calm b queue inside c)
        ]

        pub route_all-Calm :
            (fuel : ℕ) (local : Heap) (b : Board E H)
            → InRange n (items local)
            → Calm calm labels saved b
            → (b' : Board E H) × (route_all E H limits t analog fuel local b ≡ some b')
              × Calm calm labels saved b'
        unfolding route_all
        route_all-Calm zero local b inside c = (b, refl, c)
        route_all-Calm (suc fuel) local b inside c = elim (Option-cases (H.pop local)) [
          | inl e ↦ (b, rw (e, route_all) refl, c)
          | inr ((ev, rest), e) ↦
              let same = H.pop_some local rest ev e (λ x. not (ltb x.net n)) in
              let here : ev.net < n = ground arith in
              let left : InRange n (items rest) = ground arith in
              let (b₁, e₁, c₁) = route-Calm ev b here c in
              let (b', e', c') = route_all-Calm fuel rest b₁ left c₁ in
              (b', rw (e, route_all, e₁) e', c')
        ]
