-- ===== src/EventQueue/Drain.antt =====
-- What `peek_next_time` and `drain_due` do to the queue.
use piperine.Common.{
  ℕ, zero, suc, ◌≡◌, ◌≤◌, refl, ap, ◌∙◌, inl, inr, Bool, true, false, not, ◌&&◌, List, [], ◌∷◌,
  none, some, ltb, ◌==◌, ◌||◌, arith, count_p, SameItems, Every, Every-mono, count_p-congr,
  count_p-split, count_p-true, count_p_mono, Option-cases,
}
use piperine.F64.{F64}
use piperine.BinaryHeap.{BinaryHeap, len}
use piperine.EventQueue.Kinds.{EventPriority, priority_eq}
use piperine.EventQueue.Entry.{EventEntry, entry_leq, entry_leq_iff}
use piperine.EventQueue.Queue.{EventQueue, is_due, next_due, note, drain_loop, drain_due}

-- The earliest entries come first.
abbrev pub Sorted {ℓ} : {A : Type ℓ} → (A → A → Bool) → List A → Type 0
Sorted leq [] = Unit {0}
Sorted leq (x ∷ xs) = Every (leq x) xs × Sorted leq xs

module _ {F : F64} (H : BinaryHeap (EventEntry F) (entry_leq F)) where
  open F use {Carrier, key}
  open H use {Heap, items, pop}

  later :
      (now : Carrier) (front x : EventEntry F)
      → is_due H now front ≡ false
      → entry_leq F front x ≡ true
      → not (is_due H now x) ≡ true
  unfolding is_due
  later now front x h k = ground (arith, entry_leq_iff F front x)

  next_due-some :
      (now : Carrier) (h h' : Heap) (e : EventEntry F)
      → next_due H now h ≡ some (e, h')
      → (is_due H now e ≡ true) × (pop h ≡ some (e, h'))
  unfolding next_due
  next_due-some now h h' e found = ground arith

  not_due :
      (now : Carrier) (h : Heap) (t : EventEntry F × Heap)
      → next_due H now h ≡ none
      → pop h ≡ some t
      → is_due H now t.0 ≡ false
  unfolding next_due
  not_due now h t e found = ground arith

  -- With nothing at hand that is due, nothing in the queue is.
  next_due-none :
      (now : Carrier) (h : Heap) → next_due H now h ≡ none → count_p (is_due H now) (items h) ≡ 0
  next_due-none now h e = elim (Option-cases (pop h)) [
    | inl empty ↦ rw (H.pop_none h empty) refl
    | inr ((front, rest), found) ↦
        let all =
          Every-mono (entry_leq F front) (λ x. not (is_due H now x)) (items h)
            (λ x. later now front x (not_due now h (front, rest) e found))
            (H.pop_least h rest front found) in
        count_p-congr (is_due H now) (λ x. not (not (is_due H now x))) (items h) (λ x. ground arith)
        ∙ all
  ]

  -- `due` Holds the entries of `h` that are due, and `rest` the others, each as often.
  abbrev pub Splits : Carrier → Heap → List (EventEntry F) → Heap → Type 0
  Splits now h due rest =
      (p : EventEntry F → Bool)
      → (count_p p due ≡ count_p (λ e. p e && is_due H now e) (items h))
        × (count_p p (items rest) ≡ count_p (λ e. p e && not (is_due H now e)) (items h))

  Splits-stop :
      (now : Carrier) (h : Heap) → count_p (is_due H now) (items h) ≡ 0 → Splits now h [] h
  Splits-stop now h none_due p = omega (
    arith,
    count_p-split p (is_due H now) (items h),
    count_p_mono (λ e. p e && is_due H now e) (is_due H now) (items h) (λ e. right e),
  )
    where
      right : (e : EventEntry F) → (p e && is_due H now e) ≡ true → is_due H now e ≡ true
      right e = ground arith

  Splits-step :
      (now : Carrier) (h h' rest : Heap) (e : EventEntry F) (due : List (EventEntry F))
      → is_due H now e ≡ true
      → SameItems (items h) (e ∷ items h')
      → Splits now h' due rest
      → Splits now h (e ∷ due) rest
  Splits-step now h h' rest e due d same split p =
      ground
        (arith, split p, same (λ e. p e && is_due H now e), same (λ e. p e && not (is_due H now e)))

  fewer :
      (h rest : Heap) (e : EventEntry F) (fuel : ℕ)
      → pop h ≡ some (e, rest)
      → len H h ≤ suc fuel
      → len H rest ≤ fuel
  fewer h rest e fuel popped bound = omega (
    arith,
    H.pop_some h rest e popped (λ _. true),
    count_p-true (items h),
    count_p-true (items rest),
  )

  pub drain_loop-Splits :
      (fuel : ℕ) (now : Carrier) (q : EventQueue H)
      → len H q.heap ≤ fuel
      → Splits now q.heap (drain_loop H fuel now q).0 (drain_loop H fuel now q).1.heap
  unfolding drain_loop
  drain_loop-Splits zero now q h = Splits-stop now q.heap (
      omega (
        arith,
        count_p_mono (is_due H now) (λ _. true) (items q.heap) (λ _ _. refl),
        count_p-true (items q.heap),
      ))
  drain_loop-Splits (suc fuel) now q h = elim (Option-cases (next_due H now q.heap)) [
    | inl e ↦ rw (e, drain_loop) (Splits-stop now q.heap (next_due-none now q.heap e))
    | inr ((entry, rest), e) ↦
        let (d, popped) = next_due-some now q.heap rest entry e in
        let same = H.pop_some q.heap rest entry popped in
        rw (e, drain_loop)
          (Splits-step now q.heap rest _ entry _ d same (
            drain_loop-Splits fuel now
              (record { heap = rest; checkpoint = note H entry q.checkpoint })
              (fewer q.heap rest entry fuel popped h)))
  ]

  first_least :
      (fuel : ℕ) (now : Carrier) (h rest : Heap) (e : EventEntry F) (q : EventQueue H)
      → q.heap ≡ rest
      → pop h ≡ some (e, rest)
      → len H rest ≤ fuel
      → Every (entry_leq F e) (drain_loop H fuel now q).0
  first_least fuel now h rest e q at popped bound =
      let after = λ (x : EventEntry F). not (entry_leq F e x) in
      omega (
        arith,
        (drain_loop-Splits fuel now q (rw at bound) after).0,
        ap (λ (t : Heap). count_p after (items t)) at,
        count_p-split after (is_due H now) (items q.heap),
        H.pop_some h rest e popped after,
        H.pop_least h rest e popped,
      )

  none_both :
      (now : Carrier) (xs : List (EventEntry F))
      → count_p (λ e. is_due H now e && not (is_due H now e)) xs ≡ 0
  none_both now [] = refl
  none_both now (x ∷ xs) = ground (arith, none_both now xs)

  -- Drained entries come in the queue's order.
  pub drain_loop-Sorted :
      (fuel : ℕ) (now : Carrier) (q : EventQueue H)
      → len H q.heap ≤ fuel
      → Sorted (entry_leq F) (drain_loop H fuel now q).0
  unfolding drain_loop
  drain_loop-Sorted zero now q h = tt
  drain_loop-Sorted (suc fuel) now q h = elim (Option-cases (next_due H now q.heap)) [
    | inl e ↦ rw (e, drain_loop) tt
    | inr ((entry, rest), e) ↦
        let (d, popped) = next_due-some now q.heap rest entry e in
        let q' : EventQueue H = record { heap = rest; checkpoint = note H entry q.checkpoint } in
        rw (e, drain_loop)
          (
            first_least fuel now q.heap rest entry q' refl popped
                (fewer q.heap rest entry fuel popped h),
            drain_loop-Sorted fuel now q' (fewer q.heap rest entry fuel popped h),
          )
  ]

  -- `drain_due` splits the queue at `now`: what it returns are the entries at or before `now`, each as
  -- often as it was queued and in the queue's order, and what stays queued are all the others. Its
  -- loop has run to its end, for no entry that is due stays behind.
  pub drain_due-Splits :
      (now : Carrier) (q : EventQueue H)
      → Splits now q.heap (drain_due H now q).0 (drain_due H now q).1.heap
        × Sorted (entry_leq F) (drain_due H now q).0
        × (count_p (is_due H now) (items (drain_due H now q).1.heap) ≡ 0)
  unfolding drain_due
  drain_due-Splits now q =
      let split = drain_loop-Splits (len H q.heap) now q (omega arith) in
      (
        split,
        drain_loop-Sorted (len H q.heap) now q (omega arith),
        (split (is_due H now)).1 ∙ none_both now (items q.heap),
      )

  -- `e` comes no earlier than `front`, and if at the same time, then `e` is advisory or `front` is exact.
  abbrev pub waits_behind : EventEntry F → EventEntry F → Bool
  waits_behind front e =
      ltb (key front.time) (key e.time)
      || key front.time == key e.time
        && (priority_eq e.priority EventPriority.advisory
            || priority_eq front.priority EventPriority.exact)

  unfoldable pub is_nil : List (EventEntry F) → Bool
  is_nil [] = true
  is_nil (e ∷ es) = false
