-- ===== src/Digital/Scheduler/Ends.antt =====
-- How `evaluate_until_stable` ends.
use native.Mathlib.Nat.{zero-add}
use piperine.Common.{
  ℕ, zero, suc, ◌+◌, ◌≡◌, ◌≢◌, leb, Bool-cases, ◌≤◌, ◌<◌, refl, ap, ◌∙◌, subst, ◌⊎◌, inl, inr, true,
  false, not, List, [], ◌∷◌, some, arith, Every, Every-mono, Option-cases,
}
use piperine.F64.{F64}
use piperine.BinaryHeap.{BinaryHeap}
use piperine.BinaryHeap.PopWhile.{front_passes, pop_while-Popped}
use piperine.Digital.Event.{DigitalEvent, event_leq, event_leq_time}
use piperine.Digital.State.{DigitalState}
use piperine.Digital.Interface.{Element}
use piperine.Digital.Scheduler.{
  PlanLimits, Status, settled, delta_limit, Run, is_now, Cycle, quiet, ran, faulted, fire, cycle,
  has_more_at_t, Turn, stop, again, conclude, until_loop, evaluate_until_stable,
}

module _ {F : F64} {S : Type 0} (E : Element F S) (H : BinaryHeap (DigitalEvent F) (event_leq F))
    (limits : PlanLimits F) (t : F64.Carrier F) (analog : List (F64.Carrier F)) where
  open F use {Carrier, key, is_nan}
  open H use {Heap, items}

  abbrev pub TheRun : Type 0
  TheRun = Run E H

  abbrev pub turn : ℕ → TheRun → Turn E H limits t analog
  turn delta_count r = conclude E H limits t analog delta_count (cycle E H limits t analog r)

  -- `n` turns in a row, the first at `delta_count`, ran a delta cycle, went round again and lead from
  -- `r` to `u`.
  abbrev pub Turns : ℕ → ℕ → TheRun → TheRun → Type 0
  Turns zero delta_count r u = r ≡ u
  Turns (suc n) delta_count r u =
      (v : TheRun) × (turn delta_count r ≡ again v) × Turns n (delta_count + 1) v u

  -- A turn that goes round again is below the cap and leaves events at the time.
  pub conclude_again :
      (delta_count : ℕ) (c : Cycle E H limits t analog) (r : TheRun)
      → conclude E H limits t analog delta_count c ≡ again r
      → (c ≡ ran r)
        × (delta_count + 1 < limits.max_delta_cycles)
        × (has_more_at_t E H limits t analog r ≡ true)
  unfolding conclude
  conclude_again delta_count (quiet u) r e = cc
  conclude_again delta_count (faulted u) r e = cc
  conclude_again delta_count (ran u) r e = ground arith

  Turn-cases :
      (u : Turn E H limits t analog)
      → ((r : TheRun) × (s : Status) × (u ≡ stop r s)) ⊎ ((r : TheRun) × (u ≡ again r))
  Turn-cases (stop r s) = inl (r, s, refl)
  Turn-cases (again r) = inr (r, refl)

  -- With fuel for the turns that the cap leaves, the loop ends in a turn that stops.
  until_loop_stops :
      (fuel delta_count : ℕ) (r : TheRun)
      → delta_count ≤ limits.max_delta_cycles
      → limits.max_delta_cycles < delta_count + fuel
      → (n m : ℕ) × (u : TheRun) × Turns n delta_count r u
        × (m ≡ delta_count + n)
        × (turn m u
            ≡ stop
                (until_loop E H limits t analog fuel delta_count r).0
                (until_loop E H limits t analog fuel delta_count r).1)
  unfolding until_loop
  until_loop_stops zero delta_count r h k = absurd (omega arith)
  until_loop_stops (suc fuel) delta_count r h k = elim (Turn-cases (turn delta_count r)) [
    | inl (r', s, e) ↦ (0, delta_count, r, refl, omega arith, rw (e, until_loop))
    | inr (r', e) ↦
        let (_, below, _) = conclude_again delta_count _ r' e in
        let (n, m, u, turns, at, stops) =
          until_loop_stops fuel (delta_count + 1) r' (omega arith) (omega arith) in
        (suc n, m, u, (r', e, turns), omega arith, rw (e, until_loop) stops)
  ]

  -- After turns that all went round again the count is below the cap.
  Turns-below :
      (n delta_count : ℕ) (r u : TheRun)
      → Turns n delta_count r u
      → (n ≡ 0) ⊎ (delta_count + n < limits.max_delta_cycles)
  Turns-below zero delta_count r u turns = inl refl
  Turns-below (suc n) delta_count r u (v, e, turns) =
      let (_, below, _) = conclude_again delta_count _ v e in
      elim (Turns-below n (delta_count + 1) v u turns) [
        | inl none_left ↦ inr (omega (arith, below, none_left))
        | inr less ↦ inr (omega (arith, less))
      ]

  -- A turn reports the limit only when its delta cycle is the last that the cap allows.
  conclude_limit :
      (delta_count : ℕ) (c : Cycle E H limits t analog) (r : TheRun) (status : Status)
      → conclude E H limits t analog delta_count c ≡ stop r status
      → (status ≢ delta_limit) ⊎ (limits.max_delta_cycles ≤ delta_count + 1)
  unfolding conclude
  conclude_limit delta_count (quiet u) r status e = inl (λ k. cc)
  conclude_limit delta_count (faulted u) r status e = inl (λ k. cc)
  conclude_limit delta_count (ran u) r status e =
      elim (Bool-cases (leb limits.max_delta_cycles (delta_count + 1))) [
        | inl c ↦ inr (ground arith)
        | inr c ↦ elim (Bool-cases (has_more_at_t E H limits t analog u)) [
          | inl m ↦ let no : again u ≡ stop r status = rw (c, conclude, m) at e in cc
          | inr m ↦
              let yes : stop u settled ≡ stop r status = rw (c, conclude, m) at e in inl (λ k. cc)
        ]
      ]

  -- `evaluate_until_stable` ends by a `break` or a `return`, whatever the elements do: some number `n` of
  -- delta cycles each left events at the time, and then one more turn stopped the loop. `n` is 0 or below
  -- the cap, so that with the last turn at most the cap of delta cycles ran, or one if the cap is 0; and
  -- the loop reports the limit only when these reach the cap.
  pub evaluate_until_stable_ends :
      (state : DigitalState H) (devices : List S)
      → (n : ℕ) × (u : TheRun) × ((n ≡ 0) ⊎ (n < limits.max_delta_cycles))
        × Turns n 0 (record { state = state; devices = devices; seq = 0 }) u
        × (turn n u
            ≡ stop
                (evaluate_until_stable E H limits t analog state devices).0
                (evaluate_until_stable E H limits t analog state devices).1)
        × (((evaluate_until_stable E H limits t analog state devices).1 ≢ delta_limit)
            ⊎ (limits.max_delta_cycles ≤ n + 1))
  unfolding evaluate_until_stable
  evaluate_until_stable_ends state devices =
      let (n, m, u, turns, at, stops) =
        until_loop_stops (limits.max_delta_cycles + 1) 0 _ (omega arith) (omega arith) in
      let m_eq : m ≡ n = at ∙ zero-add n in
      let out = evaluate_until_stable E H limits t analog state devices in
      let stopped = subst (λ k. turn k u ≡ stop out.0 out.1) m_eq stops in
      (
        n,
        u,
        elim (Turns-below n 0 _ u turns) [ inl z ↦ inl z | inr less ↦ inr (omega (arith, less)) ],
        turns,
        stopped,
        conclude_limit n (cycle E H limits t analog u) out.0 out.1 stopped,
      )

  fire_quiet :
      (r u : TheRun) (evs : List (DigitalEvent F))
      → fire E H limits t analog r evs ≡ quiet u
      → r ≡ u
  unfolding fire
  fire_quiet r u [] e = ground arith
  fire_quiet r u (ev ∷ evs) e = ground arith

  cycle_quiet :
      (r u : TheRun)
      → cycle E H limits t analog r ≡ quiet u
      → has_more_at_t E H limits t analog u ≡ false
  unfolding cycle has_more_at_t
  cycle_quiet r u e =
      let test = is_now E H limits t analog in
      subst (λ (v : TheRun). front_passes H test v.state.event_queue ≡ false) (fire_quiet _ u _ e)
        (pop_while-Popped H test r.state.event_queue).stops

  conclude_settled :
      (delta_count : ℕ) (c : Cycle E H limits t analog) (r : TheRun)
      → conclude E H limits t analog delta_count c ≡ stop r settled
      → (c ≡ quiet r) ⊎ (has_more_at_t E H limits t analog r ≡ false)
  unfolding conclude
  conclude_settled delta_count (quiet u) r e = ground arith
  conclude_settled delta_count (faulted u) r e = ground arith
  conclude_settled delta_count (ran u) r e = ground arith

  -- A turn that stops in order leaves no event at the time at the front of the queue.
  stop_settled :
      (delta_count : ℕ) (u r : TheRun)
      → turn delta_count u ≡ stop r settled
      → has_more_at_t E H limits t analog r ≡ false
  stop_settled delta_count u r e = elim (conclude_settled delta_count _ r e) [
    | inl q ↦ cycle_quiet u r q
    | inr h ↦ h
  ]

  front_not_now :
      (h rest : Heap) (front : DigitalEvent F)
      → H.pop h ≡ some (front, rest)
      → front_passes H (is_now E H limits t analog) h ≡ false
      → is_now E H limits t analog front ≡ false
  unfolding front_passes
  front_not_now h rest front e more = ground arith

  behind_front :
      (front x : DigitalEvent F)
      → is_nan front.time ≡ false
      → is_now E H limits t analog front ≡ false
      → event_leq F front x ≡ true
      → not (is_now E H limits t analog x) ≡ true
  unfolding is_now
  behind_front front x number no_now h = ground (
    arith,
    event_leq_time F front x h,
    F.le_down front.time x.time (F.add t limits.digital_time_epsilon) number,
  )

  -- With no NaN among the times, a front that is not now means that nothing in the queue is.
  pub none_now :
      (r : TheRun)
      → has_more_at_t E H limits t analog r ≡ false
      → Every (λ ev. not (is_nan ev.time)) (items r.state.event_queue)
      → Every (λ ev. not (is_now E H limits t analog ev)) (items r.state.event_queue)
  unfolding has_more_at_t
  none_now r more numbers = elim (Option-cases (H.pop r.state.event_queue)) [
    | inl e ↦ rw (H.pop_none r.state.event_queue e) refl
    | inr ((front, rest), e) ↦
        let number : is_nan front.time ≡ false = ground (
          arith,
          numbers,
          H.pop_some r.state.event_queue rest front e (λ ev. not (not (is_nan ev.time))),
        ) in
        Every-mono (event_leq F front) (λ ev. not (is_now E H limits t analog ev))
          (items r.state.event_queue)
          (λ x. behind_front front x number (front_not_now r.state.event_queue rest front e more))
          (H.pop_least r.state.event_queue rest front e)
  ]

  -- When the evaluation reports success, and no event that is still queued then has a NaN for its time,
  -- the network has settled at the time: every event that is still queued lies after it.
  pub evaluate_until_stable_settles :
      (state : DigitalState H) (devices : List S)
      → (evaluate_until_stable E H limits t analog state devices).1 ≡ settled
      → Every
          (λ ev. not (is_nan ev.time))
          (items (evaluate_until_stable E H limits t analog state devices).0.state.event_queue)
      → Every
          (λ ev. not (is_now E H limits t analog ev))
          (items (evaluate_until_stable E H limits t analog state devices).0.state.event_queue)
  evaluate_until_stable_settles state devices ok numbers =
      let (n, u, _, turns, stops, _) = evaluate_until_stable_ends state devices in
      let out = evaluate_until_stable E H limits t analog state devices in
      none_now out.0 (stop_settled n u out.0 (stops ∙ ap (stop out.0) ok)) numbers
