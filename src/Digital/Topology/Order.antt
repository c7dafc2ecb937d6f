-- ===== src/Digital/Topology/Order.antt =====
-- The order that `DigitalTopology::build` gives the elements.
use piperine.Common.{
  ℕ, zero, suc, ◌+◌, ◌==◌, ◌&&◌, not, ◌≡◌, ◌↔◌, ◌≤◌, ◌<◌, refl, sym, ap, ◌∙◌, subst, ◌⊎◌, inl, inr,
  Bool, true, List, [], ◌∷◌, ◌++◌, Option, none, some, length, map, replicate, length-replicate,
  get_or-replicate, get_or, set, length-set, ltb, leb, arith, count_p, count_p-append, Every,
  Every-of_members, bit, Bool-cases, contains,
}
use piperine.F64.{F64}
use piperine.Digital.Event.{DigitalNet}
use piperine.Digital.Interface.{Element}
use piperine.Digital.Dag.Safe.{Ranked}
use piperine.Digital.Topology.{
  add_edge, add_edges, find_dev, adjacency, output_to_dev, Dfs, searched, positions, place,
  ranked_order, edges_of, build,
}
use piperine.Digital.Topology.Work.{color_of}
use piperine.Digital.Topology.Search.{Marked, get_or-outside, visit_all-Marked}

set-cases {ℓ} :
    {A : Type ℓ} (xs : List A) (i j : ℕ) (v d : A)
    → (get_or (set xs i v) j d ≡ v) ⊎ (get_or (set xs i v) j d ≡ get_or xs j d)
set-cases [] i j v d = inr refl
set-cases (x ∷ xs) zero zero v d = inl refl
set-cases (x ∷ xs) zero (suc j) v d = inr refl
set-cases (x ∷ xs) (suc i) zero v d = inr refl
set-cases (x ∷ xs) (suc i) (suc j) v d = set-cases xs i j v d

pub Every-get_or :
    (p : ℕ → Bool) (xs : List ℕ) (k : ℕ) → k < length xs → Every p xs → p (get_or xs k 0) ≡ true
Every-get_or p [] k h every = elim h [ ]
Every-get_or p (x ∷ xs) zero h every = ground arith
Every-get_or p (x ∷ xs) (suc k) h every = Every-get_or p xs k (omega arith) (ground arith)

-- There is a list of targets for each element, and every target is an element.
pub record Targets (n : ℕ) (adj : List (List ℕ)) : Type 0 where
  pub all : length adj ≡ n
  pub within : (v : ℕ) → Every (λ u. ltb u n) (get_or adj v [])

add_edge-Targets :
    (n j : ℕ) (o : Option ℕ) (adj : List (List ℕ))
    → j < n
    → Targets n adj
    → Targets n (add_edge adj j o)
unfolding add_edge
add_edge-Targets n j none adj h t = t
add_edge-Targets n j (some i) adj h t =
    elim (Bool-cases (not (i == j) && not (contains ◌==◌ (get_or adj i []) j))) [
      | inr c ↦ rw (add_edge, c) t
      | inl c ↦
          let grown = get_or adj i [] ++ j ∷ [] in
          let fits : Every (λ u. ltb u n) grown =
            ground
              (arith, count_p-append (λ u. not (ltb u n)) (get_or adj i []) (j ∷ []), t.within i) in
          rw (add_edge, c)
            (record {
              all = length-set adj i grown ∙ t.all;
              within = λ v. elim (set-cases adj i v grown []) [
                | inl e ↦ rw e fits
                | inr e ↦ rw e (t.within v)
              ];
            })
    ]

add_edges-Targets :
    (n j : ℕ) (table : List (DigitalNet × ℕ)) (nets : List DigitalNet) (adj : List (List ℕ))
    → j < n
    → Targets n adj
    → Targets n (add_edges table j nets adj)
unfolding add_edges
add_edges-Targets n j table [] adj h t = t
add_edges-Targets n j table (net ∷ nets) adj h t =
    add_edges-Targets n j table nets (add_edge adj j (find_dev net table)) h
      (add_edge-Targets n j (find_dev net table) adj h t)

positions-fit :
    (k pos : ℕ) (order table : List ℕ)
    → pos + length order ≤ k
    → ((v : ℕ) → 0 < k → get_or table v 0 < k)
    → (v : ℕ) → 0 < k
    → get_or (positions pos order table) v 0 < k
unfolding positions
positions-fit k pos [] table h fit = fit
positions-fit k pos (dev ∷ order) table h fit =
    positions-fit k (pos + 1) order (set table dev pos) (omega arith) (λ v z.
      elim (set-cases table dev v pos 0) [ inl e ↦ rw e (omega arith) | inr e ↦ rw e (fit v z) ])

place-fit :
    (k : ℕ) (table : List ℕ) (edges : List (ℕ × ℕ))
    → ((v : ℕ) → get_or table v 0 < k)
    → Every (λ e. ltb e.0 k && leb e.1 k) (map (place table) edges)
unfolding place
place-fit k table [] fit = refl
place-fit k table ((src, dst) ∷ edges) fit =
    ground (arith, fit src, fit dst, place-fit k table edges fit)

color_outside : {n : ℕ} (d : Dfs) (v : ℕ) → Marked n d → n ≤ v → color_of d v ≡ 0
color_outside d v m h = elim (Bool-cases (get_or d.color v 0 == 0)) [
  | inl c ↦ ground arith
  | inr c ↦ absurd (omega (arith, m.size, get_or-outside d.color v (ground arith), h))
]

pub count_p-within : (p : ℕ → Bool) (xs : List ℕ) → count_p p xs ≤ length xs
count_p-within p [] = omega arith
count_p-within p (x ∷ xs) = ground (arith, count_p-within p xs)

pub same_number : (a b : ℕ) → ((a == b) ≡ true) ↔ (a ≡ b)
same_number a b = (λ h. ground arith, λ h. ground arith)

module _ (n : ℕ) (adj : List (List ℕ)) (t : Targets n adj) where
  abbrev pub start : Dfs
  start = record { color = replicate n 0; order = []; raw_back = []; stack = [] }

  pub start-Marked : Marked n start
  start-Marked = record {
    size = length-replicate {A = ℕ} n 0;
    once = λ w. ground (arith, get_or-replicate {A = ℕ} n w 0);
    stacked = λ w. ground (arith, get_or-replicate {A = ℕ} n w 0);
    colors = λ w. ground (arith, get_or-replicate {A = ℕ} n w 0);
  }

  pub targets_inside : (w k : ℕ) → k < length (get_or adj w []) → get_or (get_or adj w []) k 0 < n
  targets_inside w k h =
      ground (arith, Every-get_or (λ u. ltb u n) (get_or adj w []) k h (t.within w))

  pub searched-Done :
      Marked n (searched adj n)
      × ((searched adj n).stack ≡ [])
      × ((v : ℕ) → v < n → 0 < color_of (searched adj n) v)
  unfolding searched
  searched-Done =
      visit_all-Marked adj n t.all targets_inside n 0 start (omega arith) refl start-Marked
        (λ w h. absurd (omega arith))

  -- Once the search is over every element has its place in the order, and nothing else has.
  pub searched_once : (v : ℕ) → count_p (λ x. v == x) (searched adj n).order ≡ bit (ltb v n)
  searched_once v =
      let (m, empty, seen) = searched-Done in
      ground (
        arith,
        m.once v,
        m.stacked v,
        m.colors v,
        ap (count_p (λ e. v == e.0)) empty,
        seen v,
        color_outside (searched adj n) v m,
      )

  order_nonempty : 0 < n → 0 < length (searched adj n).order
  order_nonempty h = elim (Bool-cases (ltb 0 (length (searched adj n).order))) [
    | inl c ↦ ground arith
    | inr c ↦
        absurd
          (ground (arith, searched_once 0, count_p-within (λ x. 0 == x) (searched adj n).order))
  ]

  ranked_order-Ranked : 0 < n → Ranked (ranked_order adj n) n
  unfolding ranked_order
  ranked_order-Ranked h =
      let d = searched adj n in
      let k = length d.order in
      record {
        order =
            Every-of_members ◌==◌ same_number (λ i. ltb i n) d.order
              (λ v m. ground (arith, searched_once v));
        edges = place-fit k (positions 0 d.order (replicate n 0)) d.raw_back (λ v.
            positions-fit k 0 d.order (replicate n 0) (omega arith)
              (λ w z. subst (λ x. x < k) (sym (get_or-replicate {A = ℕ} n w 0)) z) v
              (order_nonempty h));
      }

module _ {F : F64} {S : Type 0} (E : Element F S) where
  adjacency-Targets :
      (n : ℕ) (table : List (DigitalNet × ℕ)) (j : ℕ) (devices : List S) (adj : List (List ℕ))
      → j + length devices ≡ n
      → Targets n adj
      → Targets n (adjacency E table j devices adj)
  unfolding adjacency
  adjacency-Targets n table j [] adj h t = t
  adjacency-Targets n table j (s ∷ rest) adj h t =
      adjacency-Targets n table (j + 1) rest (add_edges table j (E.inputs s) adj) (omega arith)
        (add_edges-Targets n j table (E.inputs s) adj (omega arith) t)

  pub edges_of-Targets : (devices : List S) → Targets (length devices) (edges_of E devices)
  unfolding edges_of
  edges_of-Targets devices =
      let none_yet : Targets (length devices) (replicate (length devices) []) = record {
        all = length-replicate {A = List ℕ} (length devices) [];
        within = λ v. rw (get_or-replicate {A = List ℕ} (length devices) v []) refl;
      } in
      adjacency-Targets (length devices) (output_to_dev E 0 devices []) 0 devices
        (replicate (length devices) []) (omega arith) none_yet

  -- The topology of a circuit orders every element exactly once and nothing else, whatever cycles the
  -- elements form: the search of the elements runs to its end.
  pub build_once :
      (devices : List S) (v : ℕ)
      → count_p (λ x. v == x) (build E devices).topo_order ≡ bit (ltb v (length devices))
  unfolding build ranked_order
  build_once [] v = ground arith
  build_once (s ∷ rest) v =
      searched_once (length (s ∷ rest)) (edges_of E (s ∷ rest)) (edges_of-Targets (s ∷ rest)) v

  -- The topology of a circuit is one that the evaluation can walk.
  pub build-Ranked : (devices : List S) → Ranked (build E devices) (length devices)
  unfolding build
  build-Ranked [] = record { order = refl; edges = refl }
  build-Ranked (s ∷ rest) =
      ranked_order-Ranked (length (s ∷ rest)) (edges_of E (s ∷ rest)) (edges_of-Targets (s ∷ rest))
        (omega arith)
