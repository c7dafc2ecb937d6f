-- ===== src/BinaryHeap/PopWhile.antt =====
-- `while let Some(e) = heap.peek() { if test(e) { heap.pop() } else { break } }`, as the digital
-- scheduler writes it.
use piperine.Common.{
  ℕ, zero, suc, ◌≤◌, ◌≡◌, refl, inl, inr, Bool, true, false, List, [], ◌∷◌, ◌++◌, Option, none,
  some, if◌then◌else◌, arith, SameItems, Every, count_p-true, Option-cases,
}
use piperine.BinaryHeap.{BinaryHeap, peek, len}

module _ {ℓ} {E : Type ℓ} {leq : E → E → Bool} (H : BinaryHeap E leq) (test : E → Bool) where
  open H use {Heap, items, pop}

  -- The front entry passes the test.
  unfoldable pub front_passes : Heap → Bool
  front_passes h = elim (peek H h) [ none ↦ false | some e ↦ test e ]

  -- One round: the front entry and the rest, if it passes.
  unfoldable pub next_passing : Heap → Option (E × Heap)
  next_passing h = elim (pop h) [
    | none ↦ none
    | some (front, rest) ↦ if test front then some (front, rest) else none
  ]

  unfoldable pub pop_loop : ℕ → Heap → List E × Heap
  pop_loop zero h = ([], h)
  pop_loop (suc fuel) h = elim (next_passing h) [
    | none ↦ ([], h)
    | some (front, rest) ↦ let (taken, left) = pop_loop fuel rest in (front ∷ taken, left)
  ]

  -- Each round takes one entry, so the size of the heap is fuel enough.
  unfoldable pub pop_while : Heap → List E × Heap
  pop_while h = pop_loop (len H h) h

  pub next_passing-some :
      (h rest : Heap) (e : E)
      → next_passing h ≡ some (e, rest)
      → (test e ≡ true) × (pop h ≡ some (e, rest))
  unfolding next_passing
  next_passing-some h rest e found = ground arith

  pub next_passing-none : (h : Heap) → next_passing h ≡ none → front_passes h ≡ false
  unfolding next_passing front_passes
  next_passing-none h e = ground arith

  -- What the loop has when it stops: the entries taken pass, none is lost, and the front fails.
  pub record Popped (h : Heap) (taken : List E) (left : Heap) : Type ℓ where
    pub pass : Every test taken
    pub same : SameItems (items h) (taken ++ items left)
    pub stops : front_passes left ≡ false

  pub front_passes-empty : (h : Heap) → len H h ≤ 0 → front_passes h ≡ false
  unfolding front_passes
  front_passes-empty h bound = elim (Option-cases (pop h)) [
    | inl e ↦ rw (e, front_passes)
    | inr ((front, rest), e) ↦
        absurd (omega (arith, H.pop_some h rest front e (λ _. true), count_p-true (items h)))
  ]

  pop_loop-Popped :
      (fuel : ℕ) (h : Heap) → len H h ≤ fuel → Popped h (pop_loop fuel h).0 (pop_loop fuel h).1
  unfolding pop_loop
  pop_loop-Popped zero h bound = record {
    pass = refl;
    same = λ p. refl;
    stops = front_passes-empty h bound;
  }
  pop_loop-Popped (suc fuel) h bound = elim (Option-cases (next_passing h)) [
    | inl e ↦
        rw (e, pop_loop) (record { pass = refl; same = λ p. refl; stops = next_passing-none h e })
    | inr ((front, rest), e) ↦
        let (d, popped) = next_passing-some h rest front e in
        let same = H.pop_some h rest front popped in
        let later =
          pop_loop-Popped fuel rest
            (omega (arith, same (λ _. true), count_p-true (items h), count_p-true (items rest))) in
        rw (e, pop_loop)
          (record {
            pass = ground (arith, later.pass);
            same = λ p. omega (arith, same p, later.same p);
            stops = later.stops;
          })
  ]

  pub pop_while-Popped : (h : Heap) → Popped h (pop_while h).0 (pop_while h).1
  unfolding pop_while
  pop_while-Popped h = pop_loop-Popped (len H h) h (omega arith)
