-- ===== src/Digital/Topology/Forward.antt =====
-- The edges that the depth-first search does not list as back edges go forward in its order.
use piperine.Common.{
  ℕ, zero, suc, ◌+◌, ◌==◌, ◌&&◌, ◌||◌, ◌≡◌, ◌≤◌, ◌<◌, sym, ap, subst, inl, inr, Bool, true, false,
  List, [], ◌∷◌, ◌++◌, Option, none, some, length, get_or, set, ltb, arith, count_p, count_p-append,
  Bool-cases,
}
use piperine.Digital.Topology.{Dfs, look, leave, turn, search_loop, weight, visit, visit_all}
use piperine.Digital.Topology.Work.{color_of, targets, get_or-set_at, stack-cases}
use piperine.Digital.Topology.Search.{
  Marked, top_color, turn-Marked, enter-Marked, colored_in, visit-Marked,
}

-- `u` stands after `v`.
unfoldable pub before : List ℕ → ℕ → ℕ → Bool
before [] v u = false
before (x ∷ xs) v u = x == v && ltb 0 (count_p (λ y. u == y) xs) || before xs v u

unfoldable pub listed : List (ℕ × ℕ) → ℕ → ℕ → Bool
listed edges v u = ltb 0 (count_p (λ e. v == e.0 && u == e.1) edges)

-- An edge that needs no more attention: its target is done, or it is listed as a back edge.
unfoldable pub closed : Dfs → ℕ → ℕ → Bool
closed d v u = listed d.raw_back v u || get_or d.color u 0 == 2

unfoldable pub is_above : Option ℕ → ℕ → Bool
is_above none u = false
is_above (some w) u = w == u

module _ (adj : List (List ℕ)) where
  -- On the stack, every edge that was looked at is closed or leads to the element above.
  abbrev pub Chain : (ℕ → ℕ → Bool) → Option ℕ → List (ℕ × ℕ) → Type 0
  Chain ok above [] = Unit {0}
  Chain ok above ((v, ai) ∷ rest) =
      ((k : ℕ)
        → k < ai
        → (ok v (get_or (targets adj v) k 0) || is_above above (get_or (targets adj v) k 0)) ≡ true)
      × Chain ok (some v) rest

  Chain-mono :
      (ok ok' : ℕ → ℕ → Bool) (above : Option ℕ) (stack : List (ℕ × ℕ))
      → ((v u : ℕ) → ok v u ≡ true → ok' v u ≡ true)
      → Chain ok above stack
      → Chain ok' above stack
  Chain-mono ok ok' above [] more chain = tt
  Chain-mono ok ok' above ((v, ai) ∷ rest) more (here, below) = (
    λ k h. ground (arith, here k h, more v (get_or (targets adj v) k 0)),
    Chain-mono ok ok' (some v) rest more below,
  )

  -- The element above has left, and edges to it are closed.
  Chain-pop :
      (ok ok' : ℕ → ℕ → Bool) (w : ℕ) (stack : List (ℕ × ℕ))
      → ((v u : ℕ) → ok v u ≡ true → ok' v u ≡ true)
      → ((v u : ℕ) → (w == u) ≡ true → ok' v u ≡ true)
      → Chain ok (some w) stack
      → Chain ok' none stack
  unfolding is_above
  Chain-pop ok ok' w [] more left chain = tt
  Chain-pop ok ok' w ((v, ai) ∷ rest) more left (here, below) = (
    λ k h.
        ground (
          arith,
          here k h,
          more v (get_or (targets adj v) k 0),
          left v (get_or (targets adj v) k 0),
        ),
    Chain-mono ok ok' (some v) rest more below,
  )

  pub record Linked (d : Dfs) : Type 0 where
    pub done :
        (v k : ℕ)
        → color_of d v ≡ 2
        → k < length (targets adj v)
        → (listed d.raw_back v (get_or (targets adj v) k 0)
            || before d.order v (get_or (targets adj v) k 0))
          ≡ true
    pub chain : Chain (closed d) none d.stack

  module _ (n : ℕ) (all : length adj ≡ n)
      (inside : (v k : ℕ) → k < length (targets adj v) → get_or (targets adj v) k 0 < n) where
    abbrev ClosedAt : Dfs → ℕ → List (ℕ × ℕ) → ℕ → Type 0
    ClosedAt d v rest w =
        (k : ℕ)
        → k < length (targets adj w)
        → (listed d.raw_back w (get_or (targets adj w) k 0)
            || before (v ∷ d.order) w (get_or (targets adj w) k 0))
          ≡ true

    leave-Linked :
        (d : Dfs) (v ai : ℕ) (rest : List (ℕ × ℕ))
        → d.stack ≡ (v, ai) ∷ rest
        → length (targets adj v) ≤ ai
        → Marked n d
        → Linked d
        → Linked (leave v rest d)
    unfolding leave before closed is_above
    leave-Linked d v ai rest e over m linked =
        let gray = top_color adj n all inside d v ai rest e m in
        let here : v < length d.color = rw m.size (colored_in d v gray m) in
        let (looked, below) = subst (Chain (closed d) none) e linked.chain in
        let at_v : ClosedAt d v rest v = λ k h.
          ground (arith, looked k (omega (arith, h, over)), m.once (get_or (targets adj v) k 0)) in
        record {
          done = λ w k c h. elim (Bool-cases (w == v)) [
            | inl same ↦ let eq : v ≡ w = ground arith in subst (ClosedAt d v rest) eq at_v k h
            | inr other ↦ ground (arith, get_or-set_at d.color v 2 w here, linked.done w k, h, c)
          ];
          chain =
              Chain-pop (closed d) (closed (leave v rest d)) v rest
                (λ w u k. ground (arith, get_or-set_at d.color v 2 u here))
                (λ w u k. ground (arith, get_or-set_at d.color v 2 u here)) below;
        }

    -- The edge just looked at, and those before it.
    extend :
        (ok ok' : ℕ → ℕ → Bool) (above : Option ℕ) (v ai : ℕ)
        → ((w u : ℕ) → ok w u ≡ true → ok' w u ≡ true)
        → (ok' v (get_or (targets adj v) ai 0) || is_above above (get_or (targets adj v) ai 0))
          ≡ true
        → ((k : ℕ) → k < ai → (ok v (get_or (targets adj v) k 0) || false) ≡ true)
        → (k : ℕ) → k < ai + 1
        → (ok' v (get_or (targets adj v) k 0) || is_above above (get_or (targets adj v) k 0)) ≡ true
    extend ok ok' above v ai more now looked k h = elim (Bool-cases (k == ai)) [
      | inl c ↦
          let eq : ai ≡ k = ground arith in
          subst
            (λ j.
              (ok' v (get_or (targets adj v) j 0) || is_above above (get_or (targets adj v) j 0))
              ≡ true)
            eq now
      | inr c ↦ ground (arith, looked k (ground arith), more v (get_or (targets adj v) k 0))
    ]

    look-Linked :
        (d : Dfs) (v ai : ℕ) (rest : List (ℕ × ℕ))
        → d.stack ≡ (v, ai) ∷ rest
        → ai < length (targets adj v)
        → Marked n d
        → Linked d
        → Linked (look v (get_or (targets adj v) ai 0) ai rest d)
    unfolding look closed is_above listed
    look-Linked d v ai rest e h m linked =
        let u = get_or (targets adj v) ai 0 in
        let (looked, below) = subst (Chain (closed d) none) e linked.chain in
        let here : u < length d.color = rw m.size (inside v ai h) in
        elim (Bool-cases (get_or d.color u 0 == 0)) [
          | inl c ↦
              let d' = record d { color = set d.color u 1; stack = (u, 0) ∷ (v, ai + 1) ∷ rest } in
              let more : (w x : ℕ) → closed d w x ≡ true → closed d' w x ≡ true =
                λ w x k. ground (arith, get_or-set_at d.color u 1 x here, c) in
              rw (c, look)
                (record {
                  done = λ w k two len.
                      ground (arith, get_or-set_at d.color u 1 w here, linked.done w k, len, two);
                  chain = (
                    λ k z. absurd (omega (arith, z)),
                    (
                      extend (closed d) (closed d') (some u) v ai more (ground arith) looked,
                      Chain-mono (closed d) (closed d') (some v) rest more below,
                    ),
                  );
                })
          | inr c ↦ elim (Bool-cases (get_or d.color u 0 == 1)) [
            | inl c₁ ↦
                let d' = record d {
                  raw_back = d.raw_back ++ (v, u) ∷ [];
                  stack = (v, ai + 1) ∷ rest;
                } in
                let grown : (w x : ℕ)
                    → listed d.raw_back w x ≡ true
                    → listed d'.raw_back w x ≡ true =
                  λ w x k.
                    ground (
                      arith,
                      count_p-append (λ b. w == b.0 && x == b.1) d.raw_back ((v, u) ∷ []),
                    ) in
                let more : (w x : ℕ) → closed d w x ≡ true → closed d' w x ≡ true =
                  λ w x k. ground (arith, grown w x) in
                let now : listed d'.raw_back v u ≡ true =
                  ground
                    (arith, count_p-append (λ b. v == b.0 && u == b.1) d.raw_back ((v, u) ∷ [])) in
                rw (c, look, c₁)
                  (record {
                    done = λ w k two len.
                        ground
                          (arith, grown w (get_or (targets adj w) k 0), linked.done w k two len);
                    chain = (
                      extend (closed d) (closed d') none v ai more (ground (arith, now)) looked,
                      Chain-mono (closed d) (closed d') (some v) rest more below,
                    );
                  })
            | inr c₁ ↦
                let two : get_or d.color u 0 ≡ 2 = ground (arith, m.colors u) in
                rw (c, look, c₁)
                  (record {
                    done = linked.done;
                    chain = (
                      extend (closed d) (closed d) none v ai (λ w x k. k) (ground (arith, two))
                          looked,
                      below,
                    );
                  })
          ]
        ]

    turn-Linked :
        (d : Dfs) (v ai : ℕ) (rest : List (ℕ × ℕ))
        → d.stack ≡ (v, ai) ∷ rest
        → Marked n d
        → Linked d
        → Linked (turn adj v ai rest d)
    unfolding turn
    turn-Linked d v ai rest e m linked = elim (Bool-cases (ltb ai (length (get_or adj v [])))) [
      | inl c ↦ rw (turn, c) (look-Linked d v ai rest e (ground arith) m linked)
      | inr c ↦ rw (turn, c) (leave-Linked d v ai rest e (ground arith) m linked)
    ]

    search_loop-Linked :
        (fuel : ℕ) (d : Dfs) → Marked n d → Linked d → Linked (search_loop adj fuel d)
    unfolding search_loop
    search_loop-Linked zero d m linked = linked
    search_loop-Linked (suc fuel) d m linked = elim (stack-cases d.stack) [
      | inl e ↦ rw (e, search_loop) linked
      | inr (v, ai, rest, e) ↦
          rw (e, search_loop)
            (search_loop-Linked fuel (turn adj v ai rest d)
              (turn-Marked adj n all inside d v ai rest e m).0 (turn-Linked d v ai rest e m linked))
    ]

    visit-Linked :
        (start : ℕ) (d : Dfs)
        → start < n
        → d.stack ≡ []
        → Marked n d
        → Linked d
        → Linked (visit adj start d)
    unfolding visit closed is_above
    visit-Linked start d h e m linked = elim (Bool-cases (get_or d.color start 0 == 0)) [
      | inr c ↦ rw (visit, c) linked
      | inl c ↦
          let d' = record d { color = set d.color start 1; stack = (start, 0) ∷ [] } in
          let here : start < length d.color = rw m.size h in
          let (marked, _, _) =
            enter-Marked adj n all inside d start [] h (ground arith)
              (λ v. sym (ap (count_p (λ x. v == x.0)) e)) m in
          rw (visit, c)
            (search_loop-Linked (weight adj) d' marked (record {
              done = λ w k two len.
                  ground (arith, get_or-set_at d.color start 1 w here, linked.done w k, len, two);
              chain = (λ k z. absurd (omega (arith, z)), tt);
            }))
    ]

    pub visit_all-Linked :
        (left start : ℕ) (d : Dfs)
        → start + left ≡ n
        → d.stack ≡ []
        → Marked n d
        → Linked d
        → Linked (visit_all adj left start d)
    unfolding visit_all
    visit_all-Linked zero start d h e m linked = linked
    visit_all-Linked (suc left) start d h e m linked =
        let (marked, empty, _, _) = visit-Marked adj n all inside start d (omega arith) e m in
        visit_all-Linked left (start + 1) (visit adj start d) (omega arith) empty marked
          (visit-Linked start d (omega arith) e m linked)
