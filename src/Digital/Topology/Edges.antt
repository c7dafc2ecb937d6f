-- ===== src/Digital/Topology/Edges.antt =====
-- The edges of a built topology: forward in its order, or among its back edges.
use piperine.Common.{
  ℕ, zero, suc, ◌+◌, ◌==◌, ◌&&◌, ◌||◌, ◌≡◌, ◌≤◌, ◌<◌, refl, ap, ◌∙◌, subst, inl, inr, true, false,
  List, [], ◌∷◌, length, map, replicate, length-replicate, get_or-replicate, get_or, set,
  length-set, if◌then◌else◌, ltb, arith, count_p, Bool-cases,
}
use piperine.Digital.Topology.{searched, positions, place, ranked_order}
use piperine.Digital.Topology.Work.{color_of, get_or-set_at}
use piperine.Digital.Topology.Order.{
  Targets, start, start-Marked, targets_inside, searched-Done, searched_once,
}
use piperine.Digital.Topology.Forward.{before, listed, Linked, visit_all-Linked}

-- The position of `v`.
unfoldable pub index_of : List ℕ → ℕ → ℕ
index_of [] v = 0
index_of (x ∷ xs) v = if v == x then 0 else index_of xs v + 1

set_other : (cs : List ℕ) (i v j : ℕ) → (j == i) ≡ false → get_or (set cs i v) j 0 ≡ get_or cs j 0
set_other [] i v j h = refl
set_other (x ∷ cs) zero v zero h = cc
set_other (x ∷ cs) zero v (suc j) h = refl
set_other (x ∷ cs) (suc i) v zero h = refl
set_other (x ∷ cs) (suc i) v (suc j) h = set_other cs i v j (ground arith)

positions_index :
    (pos : ℕ) (order table : List ℕ) (v : ℕ)
    → v < length table
    → count_p (λ x. v == x) order ≤ 1
    → get_or (positions pos order table) v 0
      ≡ (if ltb 0 (count_p (λ x. v == x) order) then pos + index_of order v else get_or table v 0)
unfolding positions index_of
positions_index pos [] table v h once = refl
positions_index pos (dev ∷ order) table v h once =
    let inner =
      positions_index (pos + 1) order (set table dev pos) v (rw (length-set table dev pos) h)
        (ground arith) in
    elim (Bool-cases (v == dev)) [
      | inl c ↦
          let here : dev < length table = ground arith in
          ground (arith, inner, get_or-set_at table dev pos v here)
      | inr c ↦ ground (arith, inner, set_other table dev pos v c)
    ]

listed-map :
    (f : ℕ × ℕ → ℕ × ℕ) (edges : List (ℕ × ℕ)) (v u : ℕ)
    → listed edges v u ≡ true
    → listed (map f edges) (f (v, u)).0 (f (v, u)).1 ≡ true
unfolding listed
listed-map f [] v u h = cc
listed-map f ((a, b) ∷ edges) v u h = elim (Bool-cases (v == a && u == b)) [
  | inl c ↦
      let left : v ≡ a = ground arith in
      let right : u ≡ b = ground arith in
      ground (
        arith,
        ap (λ x. (f (x, u)).0) left ∙ ap (λ y. (f (a, y)).0) right,
        ap (λ x. (f (x, u)).1) left ∙ ap (λ y. (f (a, y)).1) right,
      )
  | inr c ↦ ground (arith, listed-map f edges v u)
]

pub member_index :
    (xs : List ℕ) (u : ℕ)
    → 0 < count_p (λ x. u == x) xs
    → (k : ℕ) × (k < length xs) × (get_or xs k 0 ≡ u)
member_index [] u h = elim h [ ]
member_index (x ∷ xs) u h = elim (Bool-cases (u == x)) [
  | inl c ↦ (0, omega arith, ground arith)
  | inr c ↦
      let (k, less, e) = member_index xs u (ground arith) in (k + 1, omega arith, ground (arith, e))
]

module _ (n : ℕ) (adj : List (List ℕ)) (t : Targets n adj) where
  searched_forward :
      (v u : ℕ)
      → v < n
      → 0 < count_p (λ x. u == x) (get_or adj v [])
      → (listed (searched adj n).raw_back v u || before (searched adj n).order v u) ≡ true
  unfolding searched
  searched_forward v u h member =
      let (m, empty, seen) = searched-Done n adj t in
      let (k, less, e) = member_index (get_or adj v []) u member in
      let linked : Linked adj (searched adj n) =
        visit_all-Linked adj n t.all (targets_inside n adj t) n 0 (start n adj t) (omega arith) refl
          (start-Marked n adj t)
          (record {
            done = λ w j two len. absurd (ground (arith, get_or-replicate {A = ℕ} n w 0, two));
            chain = tt;
          }) in
      let two : color_of (searched adj n) v ≡ 2 =
        ground (arith, m.stacked v, m.colors v, ap (count_p (λ x. v == x.0)) empty, seen v h) in
      subst
        (λ w. (listed (searched adj n).raw_back v w || before (searched adj n).order v w) ≡ true) e
        (linked.done v k two less)

  -- The table of positions has the positions.
  pub place_index :
      (w : ℕ)
      → w < n
      → get_or (positions 0 (searched adj n).order (replicate n 0)) w 0
        ≡ index_of (searched adj n).order w
  place_index w z = ground (
    arith,
    searched_once n adj t w,
    positions_index 0 (searched adj n).order (replicate n 0) w
        (rw (length-replicate {A = ℕ} n 0) z),
  )

  pub ranked_forward :
      (v u : ℕ)
      → v < n
      → u < n
      → 0 < count_p (λ x. u == x) (get_or adj v [])
      → (listed
            (ranked_order adj n).back_edges
            (index_of (ranked_order adj n).topo_order v)
            (index_of (ranked_order adj n).topo_order u)
          || before (ranked_order adj n).topo_order v u)
        ≡ true
  unfolding ranked_order place
  ranked_forward v u h k member =
      let d = searched adj n in
      let table = positions 0 d.order (replicate n 0) in
      ground (
        arith,
        searched_forward v u h member,
        listed-map (place table) d.raw_back v u,
        place_index v h,
        place_index u k,
      )
