-- ===== src/Digital/Topology/Search.antt =====
-- The depth-first search of the topology: its fuel is enough, and it orders every element once.
use piperine.Common.{
  ℕ, zero, suc, ◌+◌, ◌-◌, ◌==◌, ◌≡◌, ◌≤◌, ◌<◌, sym, ap, ◌∙◌, subst, inl, inr, List, [], ◌∷◌, length,
  get_or, set, get_or-set_self, length-set, ltb, arith, count_p, bit, Bool-cases,
}
use piperine.Digital.Topology.{Dfs, look, leave, turn, search_loop, weight, visit, visit_all}
use piperine.Digital.Topology.Work.{
  color_of, targets, white, pending, white-set, white-set_le, white_le, stack-cases, get_or-set_at,
}

-- The order has the elements that are done and the stack those that are on it, each once.
pub record Marked (n : ℕ) (d : Dfs) : Type 0 where
  pub size : length d.color ≡ n
  pub once : (v : ℕ) → count_p (λ x. v == x) d.order ≡ bit (color_of d v == 2)
  pub stacked : (v : ℕ) → count_p (λ e. v == e.0) d.stack ≡ bit (color_of d v == 1)
  pub colors : (v : ℕ) → color_of d v ≤ 2

pub get_or-outside : (cs : List ℕ) (v : ℕ) → 0 < get_or cs v 0 → v < length cs
get_or-outside [] v h = elim h [ ]
get_or-outside (c ∷ cs) zero h = omega arith
get_or-outside (c ∷ cs) (suc v) h = omega (arith, get_or-outside cs v h)

pub colored_in : {n : ℕ} (d : Dfs) (v : ℕ) → color_of d v ≡ 1 → Marked n d → v < n
colored_in d v e m = omega (arith, m.size, get_or-outside d.color v (omega (arith, e)))

module _ (adj : List (List ℕ)) (n : ℕ) (all : length adj ≡ n)
    (inside : (v k : ℕ) → k < length (targets adj v) → get_or (targets adj v) k 0 < n) where
  -- An element that is reached gets its mark, goes on the stack and takes its work along.
  pub enter-Marked :
      (d : Dfs) (u : ℕ) (below : List (ℕ × ℕ))
      → u < n
      → color_of d u ≡ 0
      → ((v : ℕ) → count_p (λ e. v == e.0) below ≡ count_p (λ e. v == e.0) d.stack)
      → Marked n d
      → Marked n (record d { color = set d.color u 1; stack = (u, 0) ∷ below })
        × (white adj (set d.color u 1) + length (targets adj u) + 2 ≡ white adj d.color)
        × ((v : ℕ) → 0 < color_of d v → 0 < get_or (set d.color u 1) v 0)
  enter-Marked d u below h e same m =
      let here : u < length d.color = rw m.size h in
      (
        record {
          size = length-set d.color u 1 ∙ m.size;
          once = λ v. ground (arith, m.once v, get_or-set_at d.color u 1 v here, e);
          stacked = λ v. ground (arith, m.stacked v, same v, get_or-set_at d.color u 1 v here, e);
          colors = λ v. ground (arith, m.colors v, get_or-set_at d.color u 1 v here);
        },
        white-set adj d.color u 1 (all ∙ sym m.size) here e (omega arith),
        λ v k. ground (arith, get_or-set_at d.color u 1 v here),
      )

  abbrev pub work : Dfs → ℕ
  work d = white adj d.color + pending adj d.stack

  abbrev pub Grows : Dfs → Dfs → Type 0
  Grows d d' = (v : ℕ) → 0 < color_of d v → 0 < color_of d' v

  pub top_color :
      (d : Dfs) (v ai : ℕ) (rest : List (ℕ × ℕ))
      → d.stack ≡ (v, ai) ∷ rest
      → Marked n d
      → color_of d v ≡ 1
  top_color d v ai rest e m = ground (arith, m.stacked v, ap (count_p (λ x. v == x.0)) e)

  -- The tests on the color of an edge's target.
  look-Marked :
      (d : Dfs) (v ai u : ℕ) (rest : List (ℕ × ℕ))
      → d.stack ≡ (v, ai) ∷ rest
      → ai < length (targets adj v)
      → u < n
      → Marked n d
      → Marked n (look v u ai rest d)
        × (work (look v u ai rest d) < work d)
        × Grows d (look v u ai rest d)
  unfolding look pending
  look-Marked d v ai u rest e h k m =
      let before : work d
          ≡ white adj d.color + (length (targets adj v) - ai + 1 + pending adj rest) =
        ap (λ s. white adj d.color + pending adj s) e in
      let advanced : (w : ℕ)
          → count_p (λ x. w == x.0) ((v, ai + 1) ∷ rest) ≡ count_p (λ x. w == x.0) d.stack =
        λ w. sym (ap (count_p (λ x. w == x.0)) e) in
      elim (Bool-cases (get_or d.color u 0 == 0)) [
        | inl c ↦
            let (marked, less, grows) =
              enter-Marked d u ((v, ai + 1) ∷ rest) k (ground arith) advanced m in
            rw (c, look) (marked, omega (arith, before, less), grows)
        | inr c ↦
            let marked : (back : List (ℕ × ℕ))
                → Marked n (record {
                  color = d.color;
                  order = d.order;
                  raw_back = back;
                  stack = (v, ai + 1) ∷ rest;
                }) =
              λ back. record {
                size = m.size;
                once = m.once;
                stacked = λ w. advanced w ∙ m.stacked w;
                colors = m.colors;
              } in
            elim (Bool-cases (get_or d.color u 0 == 1)) [
              | inl c₁ ↦ rw (c, look, c₁) (marked _, omega (arith, before), λ w z. z)
              | inr c₁ ↦ rw (c, look, c₁) (marked _, omega (arith, before), λ w z. z)
            ]
      ]

  leave-Marked :
      (d : Dfs) (v ai : ℕ) (rest : List (ℕ × ℕ))
      → d.stack ≡ (v, ai) ∷ rest
      → v < n
      → Marked n d
      → Marked n (leave v rest d) × (work (leave v rest d) < work d) × Grows d (leave v rest d)
  unfolding leave pending
  leave-Marked d v ai rest e h m =
      let here : v < length d.color = rw m.size h in
      let before : work d
          ≡ white adj d.color + (length (targets adj v) - ai + 1 + pending adj rest) =
        ap (λ s. white adj d.color + pending adj s) e in
      let gray = top_color d v ai rest e m in
      (
        record {
          size = length-set d.color v 2 ∙ m.size;
          once = λ w. ground (arith, m.once w, get_or-set_at d.color v 2 w here, gray);
          stacked = λ w. ground (
            arith,
            m.stacked w,
            ap (count_p (λ x. w == x.0)) e,
            get_or-set_at d.color v 2 w here,
            gray,
          );
          colors = λ w. ground (arith, m.colors w, get_or-set_at d.color v 2 w here);
        },
        omega (arith, before, white-set_le adj d.color v 2 (omega arith)),
        λ w k. ground (arith, get_or-set_at d.color v 2 w here),
      )

  pub turn-Marked :
      (d : Dfs) (v ai : ℕ) (rest : List (ℕ × ℕ))
      → d.stack ≡ (v, ai) ∷ rest
      → Marked n d
      → Marked n (turn adj v ai rest d)
        × (work (turn adj v ai rest d) < work d)
        × Grows d (turn adj v ai rest d)
  unfolding turn
  turn-Marked d v ai rest e m = elim (Bool-cases (ltb ai (length (get_or adj v [])))) [
    | inl c ↦
        rw (turn, c)
          (look-Marked d v ai (get_or (targets adj v) ai 0) rest e (ground arith)
            (inside v ai (ground arith)) m)
    | inr c ↦
        rw (turn, c) (leave-Marked d v ai rest e (colored_in d v (top_color d v ai rest e m) m) m)
  ]

  -- With enough fuel the loop empties the stack.
  search_loop-Marked :
      (fuel : ℕ) (d : Dfs)
      → work d ≤ fuel
      → Marked n d
      → Marked n (search_loop adj fuel d)
        × ((search_loop adj fuel d).stack ≡ [])
        × Grows d (search_loop adj fuel d)
  unfolding search_loop pending
  search_loop-Marked zero d h m = elim (stack-cases d.stack) [
    | inl e ↦ (m, e, λ v k. k)
    | inr (v, ai, rest, e) ↦ absurd (omega (arith, h, ap (pending adj) e))
  ]
  search_loop-Marked (suc fuel) d h m = elim (stack-cases d.stack) [
    | inl e ↦ rw (e, search_loop) (m, e, λ v k. k)
    | inr (v, ai, rest, e) ↦
        let (marked, less, grows) = turn-Marked d v ai rest e m in
        let (marked', empty, grows') =
          search_loop-Marked fuel (turn adj v ai rest d) (omega arith) marked in
        rw (e, search_loop) (marked', empty, λ w k. grows' w (grows w k))
  ]

  pub visit-Marked :
      (start : ℕ) (d : Dfs)
      → start < n
      → d.stack ≡ []
      → Marked n d
      → Marked n (visit adj start d)
        × ((visit adj start d).stack ≡ [])
        × Grows d (visit adj start d)
        × (0 < color_of (visit adj start d) start)
  unfolding visit pending
  visit-Marked start d h e m = elim (Bool-cases (get_or d.color start 0 == 0)) [
    | inl c ↦
        let entered = record d { color = set d.color start 1; stack = (start, 0) ∷ [] } in
        let (marked, exact, grows) =
          enter-Marked d start [] h (ground arith) (λ v. sym (ap (count_p (λ x. v == x.0)) e)) m in
        let (marked', empty, grows') =
          search_loop-Marked (weight adj) entered (omega (arith, exact, white_le adj d.color))
            marked in
        let begun : 0 < color_of entered start =
          ground (arith, get_or-set_self d.color start 1 0 (rw m.size h)) in
        rw (visit, c) (marked', empty, λ w k. grows' w (grows w k), grows' start begun)
    | inr c ↦ rw (visit, c) (m, e, λ w k. k, ground arith)
  ]

  pub visit_all-Marked :
      (left start : ℕ) (d : Dfs)
      → start + left ≡ n
      → d.stack ≡ []
      → Marked n d
      → ((v : ℕ) → v < start → 0 < color_of d v)
      → Marked n (visit_all adj left start d)
        × ((visit_all adj left start d).stack ≡ [])
        × ((v : ℕ) → v < n → 0 < color_of (visit_all adj left start d) v)
  unfolding visit_all
  visit_all-Marked zero start d h e m seen = (m, e, λ v k. seen v (omega arith))
  visit_all-Marked (suc left) start d h e m seen =
      let (marked, empty, grows, here) = visit-Marked start d (omega arith) e m in
      visit_all-Marked left (start + 1) (visit adj start d) (omega arith) empty marked (λ v k.
        elim (Bool-cases (v == start)) [
          | inl c ↦ subst (λ w. 0 < color_of (visit adj start d) w) (ground arith) here
          | inr c ↦ grows v (seen v (ground arith))
        ])
