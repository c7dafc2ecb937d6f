-- ===== src/Digital/Scheduler/Nets.antt =====
-- What the events of one delta cycle do to the nets and to the set of changed nets.
use piperine.Common.{
  ℕ, zero, suc, ◌≡◌, ◌≢◌, ◌<◌, refl, ◌⊎◌, inl, inr, Bool, true, false, ◌||◌, List, [], ◌∷◌, Option,
  none, some, if◌then◌else◌, ltb, ◌==◌, arith, Every, Option-cases, length, get_elem?, set,
  length-set,
}
use piperine.F64.{F64}
use piperine.Digital.Logic.{LogicValue, value_eq_iff}
use piperine.Digital.Event.{DigitalEvent, DigitalNet}
use piperine.Digital.Interface.{contains_net}
use piperine.Digital.Scheduler.{apply_event, apply_events}

get_elem?-write :
    (nets : List LogicValue) (i j : ℕ) (v old : LogicValue)
    → get_elem? nets i ≡ some old
    → get_elem? (set nets i v) j ≡ (if i == j then some v else get_elem? nets j)
get_elem?-write [] i j v old h = cc
get_elem?-write (n ∷ nets) zero zero v old h = ground arith
get_elem?-write (n ∷ nets) zero (suc j) v old h = ground arith
get_elem?-write (n ∷ nets) (suc i) zero v old h = ground arith
get_elem?-write (n ∷ nets) (suc i) (suc j) v old h =
    ground (arith, get_elem?-write nets i j v old h)

pub get_elem?-ne_none : (nets : List LogicValue) (i : ℕ) → i < length nets → get_elem? nets i ≢ none
get_elem?-ne_none [] i h = elim h [ ]
get_elem?-ne_none (n ∷ nets) zero h = λ e. cc
get_elem?-ne_none (n ∷ nets) (suc i) h = get_elem?-ne_none nets i (omega arith)

module _ {F : F64} where
  -- The value of a net after events that are applied in turn: that of the last event on it.
  unfoldable pub last_value :
      List (DigitalEvent F) → DigitalNet → Option LogicValue → Option LogicValue
  last_value [] net old = old
  last_value (ev ∷ evs) net old = last_value evs net (if ev.net == net then some ev.value else old)

  -- Some event is on the net.
  unfoldable pub touches : List (DigitalEvent F) → DigitalNet → Bool
  touches [] net = false
  touches (ev ∷ evs) net = ev.net == net || touches evs net

  -- What one event does, seen at net `j`.
  pub apply_event_at :
      (ev : DigitalEvent F) (nets nets' : List LogicValue) (changed changed' : List DigitalNet)
      (j : DigitalNet)
      → apply_event ev nets changed ≡ some (nets', changed')
      → (length nets' ≡ length nets)
        × (get_elem? nets' j ≡ (if ev.net == j then some ev.value else get_elem? nets j))
        × ((contains_net changed' j ≡ true) ⊎ (get_elem? nets' j ≡ get_elem? nets j))
        × ((contains_net changed j ≡ false) ⊎ (contains_net changed' j ≡ true))
        × ((contains_net changed' j ≡ false) ⊎ ((contains_net changed j || ev.net == j) ≡ true))
  unfolding apply_event contains_net
  apply_event_at ev nets nets' changed changed' j h = elim (Option-cases (get_elem? nets ev.net)) [
    | inl e ↦ ground arith
    | inr (old, e) ↦ ground (
      arith,
      get_elem?-write nets ev.net j ev.value old e,
      value_eq_iff old ev.value,
      length-set nets ev.net ev.value,
    )
  ]

  -- The writes of a delta cycle are those of its events in turn: a net takes the value of the last event
  -- on it. The set of changed nets has every net whose value is another than before, and besides the
  -- nets that were in it only nets with an event.
  pub apply_events_writes :
      (evs : List (DigitalEvent F)) (nets nets' : List LogicValue)
      (changed changed' : List DigitalNet) (j : DigitalNet)
      → apply_events evs nets changed ≡ some (nets', changed')
      → (length nets' ≡ length nets)
        × (get_elem? nets' j ≡ last_value evs j (get_elem? nets j))
        × ((contains_net changed' j ≡ true) ⊎ (get_elem? nets' j ≡ get_elem? nets j))
        × ((contains_net changed j ≡ false) ⊎ (contains_net changed' j ≡ true))
        × ((contains_net changed' j ≡ false) ⊎ ((contains_net changed j || touches evs j) ≡ true))
  unfolding apply_events last_value touches
  apply_events_writes [] nets nets' changed changed' j h = ground arith
  apply_events_writes (ev ∷ evs) nets nets' changed changed' j h =
      elim (Option-cases (apply_event ev nets changed)) [
        | inl e ↦ ground arith
        | inr ((nets₁, changed₁), e) ↦
            let first = apply_event_at ev nets nets₁ changed changed₁ j e in
            let rest =
              apply_events_writes evs nets₁ nets' changed₁ changed' j (rw (e, apply_events) at h) in
            ground arith
      ]

  -- Every event's net exists.
  abbrev pub InRange : ℕ → List (DigitalEvent F) → Type 0
  InRange n evs = Every (λ ev. ltb ev.net n) evs

  -- An event applies if and only if its net exists.
  pub apply_event-none :
      (ev : DigitalEvent F) (nets : List LogicValue) (changed : List DigitalNet)
      → ev.net < length nets
      → apply_event ev nets changed ≢ none
  unfolding apply_event
  apply_event-none ev nets changed h = ground (arith, get_elem?-ne_none nets ev.net)

  -- If every event's net exists, the events of the cycle apply: no index is out of bounds.
  pub apply_events-InRange :
      (evs : List (DigitalEvent F)) (nets : List LogicValue) (changed : List DigitalNet)
      → InRange (length nets) evs
      → (t : List LogicValue × List DigitalNet) × (apply_events evs nets changed ≡ some t)
  unfolding apply_events
  apply_events-InRange [] nets changed h = ((nets, changed), refl)
  apply_events-InRange (ev ∷ evs) nets changed h =
      elim (Option-cases (apply_event ev nets changed)) [
        | inl e ↦ absurd (apply_event-none ev nets changed (ground arith) e)
        | inr ((nets₁, changed₁), e) ↦
            let size = (apply_event_at ev nets nets₁ changed changed₁ 0 e).0 in
            let (t, rest) = apply_events-InRange evs nets₁ changed₁ (rw size (ground arith)) in
            (t, rw (e, apply_events) rest)
      ]
