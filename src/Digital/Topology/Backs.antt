-- ===== src/Digital/Topology/Backs.antt =====
-- The back edges of a built topology.
use piperine.Common.{
  ℕ, zero, suc, ◌+◌, ◌==◌, ◌&&◌, not, ◌≡◌, ◌≤◌, ◌<◌, refl, ap, ◌∙◌, subst, inl, inr, Bool, true,
  List, [], ◌∷◌, length, map, replicate, get_or, ltb, arith, count_p, count_p-append, Every,
  Bool-cases,
}
use piperine.F64.{F64}
use piperine.Digital.Interface.{Element}
use piperine.Digital.Topology.{
  Dfs, look, leave, turn, search_loop, weight, visit, visit_all, searched, positions, place,
  ranked_order, edges_of, build,
}
use piperine.Digital.Topology.Work.{stack-cases}
use piperine.Digital.Topology.Order.{Targets, edges_of-Targets, searched_once, Every-get_or}
use piperine.Digital.Topology.Edges.{index_of, place_index, member_index}

-- There is an edge from the one to the other.
unfoldable pub is_edge : List (List ℕ) → ℕ × ℕ → Bool
is_edge adj (v, u) = ltb 0 (count_p (λ x. u == x) (get_or adj v []))

-- Two positions of the order, and an edge between what stands there.
unfoldable pub joins : List (List ℕ) → List ℕ → ℕ × ℕ → Bool
joins adj order (p, q) =
    ltb p (length order) && ltb q (length order) && is_edge adj (get_or order p 0, get_or order q 0)

get_or-member : (xs : List ℕ) (k : ℕ) → k < length xs → 0 < count_p (λ x. get_or xs k 0 == x) xs
get_or-member [] k h = elim h [ ]
get_or-member (x ∷ xs) zero h = ground arith
get_or-member (x ∷ xs) (suc k) h = ground (arith, get_or-member xs k)

module _ (adj : List (List ℕ)) where
  abbrev Backs : Dfs → Type 0
  Backs d = Every (is_edge adj) d.raw_back

  turn-Backs : (v ai : ℕ) (rest : List (ℕ × ℕ)) (d : Dfs) → Backs d → Backs (turn adj v ai rest d)
  unfolding turn look leave is_edge
  turn-Backs v ai rest d h = elim (Bool-cases (ltb ai (length (get_or adj v [])))) [
    | inr c ↦ rw (turn, c) h
    | inl c ↦
        let u = get_or (get_or adj v []) ai 0 in
        let edge : 0 < count_p (λ x. u == x) (get_or adj v []) =
          get_or-member (get_or adj v []) ai (ground arith) in
        elim (Bool-cases (get_or d.color u 0 == 0)) [
          | inl w ↦ rw (turn, c, look, w) h
          | inr w ↦ elim (Bool-cases (get_or d.color u 0 == 1)) [
            | inl g ↦
                rw (turn, c, look, w, g)
                  (count_p-append (λ e. not (is_edge adj e)) d.raw_back ((v, u) ∷ [])
                    ∙ ground (arith, h, edge))
            | inr g ↦ rw (turn, c, look, w, g) h
          ]
        ]
  ]

  search_loop-Backs : (fuel : ℕ) (d : Dfs) → Backs d → Backs (search_loop adj fuel d)
  unfolding search_loop
  search_loop-Backs zero d h = h
  search_loop-Backs (suc fuel) d h = elim (stack-cases d.stack) [
    | inl e ↦ rw (e, search_loop) h
    | inr (v, ai, rest, e) ↦
        rw (e, search_loop)
          (search_loop-Backs fuel (turn adj v ai rest d) (turn-Backs v ai rest d h))
  ]

  visit-Backs : (first : ℕ) (d : Dfs) → Backs d → Backs (visit adj first d)
  unfolding visit
  visit-Backs first d h = elim (Bool-cases (get_or d.color first 0 == 0)) [
    | inl c ↦ rw (visit, c) (search_loop-Backs (weight adj) _ h)
    | inr c ↦ rw (visit, c) h
  ]

  visit_all-Backs : (left first : ℕ) (d : Dfs) → Backs d → Backs (visit_all adj left first d)
  unfolding visit_all
  visit_all-Backs zero first d h = h
  visit_all-Backs (suc left) first d h =
      visit_all-Backs left (first + 1) (visit adj first d) (visit-Backs first d h)

index_of-found :
    (order : List ℕ) (v : ℕ)
    → 0 < count_p (λ x. v == x) order
    → (index_of order v < length order) × (get_or order (index_of order v) 0 ≡ v)
unfolding index_of
index_of-found [] v h = elim h [ ]
index_of-found (x ∷ xs) v h = elim (Bool-cases (v == x)) [
  | inl c ↦ rw (c, index_of) (omega arith, ground arith)
  | inr c ↦
      let (less, e) = index_of-found xs v (ground arith) in
      let spot : suc (index_of xs v) ≡ index_of xs v + 1 = omega arith in
      rw (c, index_of) (omega (arith, less), subst (λ j. get_or (x ∷ xs) j 0 ≡ v) spot e)
]

get_or-beyond : (adj : List (List ℕ)) (v : ℕ) → length adj ≤ v → get_or adj v [] ≡ []
get_or-beyond [] v h = refl
get_or-beyond (x ∷ adj) zero h = absurd (omega arith)
get_or-beyond (x ∷ adj) (suc v) h = get_or-beyond adj v (omega arith)

Every-map :
    (p q : ℕ × ℕ → Bool) (f : ℕ × ℕ → ℕ × ℕ) (es : List (ℕ × ℕ))
    → ((e : ℕ × ℕ) → q e ≡ true → p (f e) ≡ true)
    → Every q es
    → Every p (map f es)
Every-map p q f [] h every = refl
Every-map p q f (e ∷ es) h every = ground (arith, h e, Every-map p q f es h)

module _ (n : ℕ) (adj : List (List ℕ)) (t : Targets n adj) where
  edge_ends : (v u : ℕ) → 0 < count_p (λ x. u == x) (get_or adj v []) → (v < n) × (u < n)
  edge_ends v u h =
      let (k, less, e) = member_index (get_or adj v []) u h in
      (
        elim (Bool-cases (ltb v n)) [
          | inl c ↦ ground arith
          | inr c ↦ absurd (
              omega (
                arith,
                h,
                ap (count_p (λ x. u == x)) (get_or-beyond adj v (ground (arith, t.all))),
              ))
        ],
        ground (arith, Every-get_or (λ x. ltb x n) (get_or adj v []) k less (t.within v)),
      )

  placed :
      (w : ℕ)
      → w < n
      → (get_or (positions 0 (searched adj n).order (replicate n 0)) w 0
          < length (searched adj n).order)
        × (get_or
              (searched adj n).order
              (get_or (positions 0 (searched adj n).order (replicate n 0)) w 0)
              0
            ≡ w)
  placed w h =
      rw (place_index n adj t w h)
        (index_of-found (searched adj n).order w (ground (arith, searched_once n adj t w)))

  place-joins :
      (b : ℕ × ℕ)
      → is_edge adj b ≡ true
      → joins adj
          (searched adj n).order
          (place (positions 0 (searched adj n).order (replicate n 0)) b)
        ≡ true
  unfolding joins place is_edge
  place-joins (v, u) h =
      let (in_v, in_u) = edge_ends v u (ground arith) in
      let (less_v, at_v) = placed v in_v in
      let (less_u, at_u) = placed u in_u in rw (at_v, at_u) (ground arith)

  ranked_joins : Every (joins adj (ranked_order adj n).topo_order) (ranked_order adj n).back_edges
  unfolding ranked_order searched
  ranked_joins =
      Every-map (joins adj (searched adj n).order) (is_edge adj)
        (place (positions 0 (searched adj n).order (replicate n 0))) (searched adj n).raw_back
        place-joins (visit_all-Backs adj n 0 _ refl)

module _ {F : F64} {S : Type 0} (E : Element F S) where
  -- Every back edge of the topology of a circuit is a pair of positions of its order, at which two elements
  -- stand that have an edge between them, from the first to the second.
  pub build_back_edges :
      (devices : List S)
      → Every (joins (edges_of E devices) (build E devices).topo_order) (build E devices).back_edges
  unfolding build
  build_back_edges [] = refl
  build_back_edges (s ∷ rest) =
      ranked_joins (length (s ∷ rest)) (edges_of E (s ∷ rest)) (edges_of-Targets E (s ∷ rest))
