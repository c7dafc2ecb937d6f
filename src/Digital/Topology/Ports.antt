-- ===== src/Digital/Topology/Ports.antt =====
-- The edges of a topology come from the ports of the elements.
use piperine.Common.{
  ℕ, zero, suc, ◌+◌, ◌==◌, ◌||◌, ◌≡◌, ◌<◌, refl, sym, subst, inl, inr, true, false, List, [], ◌∷◌,
  Option, some, length, replicate, length-replicate, get_elem?, ltb, arith, count_p, Every,
  Bool-cases, ap, ◌∙◌, not, if◌then◌else◌,
}
use piperine.F64.{F64}
use piperine.Digital.Event.{DigitalNet}
use piperine.Digital.Interface.{Element}
use piperine.Digital.Topology.{
  insert_all, find_dev, add_edges, output_to_dev, adjacency, edges_of, build,
}
use piperine.Digital.Topology.Order.{edges_of-Targets}
use piperine.Digital.Topology.Forward.{before, listed}
use piperine.Digital.Topology.Edges.{index_of, ranked_forward}
use piperine.Digital.Topology.Adjacency.{hits, add_edges_keeps, length-add_edges, add_edges_adds}

find_dev-bound :
    (n i : ℕ) (net : DigitalNet) (table : List (DigitalNet × ℕ))
    → Every (λ e. ltb e.1 n) table
    → find_dev net table ≡ some i
    → i < n
unfolding find_dev
find_dev-bound n i net [] every e = ground arith
find_dev-bound n i net ((k, d) ∷ table) every e = elim (Bool-cases (k == net)) [
  | inl c ↦ ground arith
  | inr c ↦ find_dev-bound n i net table (ground arith) (rw (find_dev, c) at e)
]

insert_all-bound :
    (n i : ℕ) (nets : List DigitalNet) (table : List (DigitalNet × ℕ))
    → i < n
    → Every (λ e. ltb e.1 n) table
    → Every (λ e. ltb e.1 n) (insert_all nets i table)
unfolding insert_all
insert_all-bound n i [] table h every = every
insert_all-bound n i (net ∷ nets) table h every =
    insert_all-bound n i nets ((net, i) ∷ table) h (ground arith)

module _ {F : F64} {S : Type 0} (E : Element F S) where
  output_to_dev-bound :
      (n i : ℕ) (devices : List S) (table : List (DigitalNet × ℕ))
      → i + length devices ≡ n
      → Every (λ e. ltb e.1 n) table
      → Every (λ e. ltb e.1 n) (output_to_dev E i devices table)
  unfolding output_to_dev
  output_to_dev-bound n i [] table h every = every
  output_to_dev-bound n i (s ∷ rest) table h every =
      output_to_dev-bound n (i + 1) rest (insert_all (E.outputs s) i table) (omega arith)
        (insert_all-bound n i (E.outputs s) table (omega arith) every)

  adjacency_keeps :
      (table : List (DigitalNet × ℕ)) (j : ℕ) (devices : List S) (adj : List (List ℕ)) (a b : ℕ)
      → 0 < hits adj a b
      → 0 < hits (adjacency E table j devices adj) a b
  unfolding adjacency
  adjacency_keeps table j [] adj a b h = h
  adjacency_keeps table j (s ∷ rest) adj a b h =
      adjacency_keeps table (j + 1) rest (add_edges table j (E.inputs s) adj) a b
        (add_edges_keeps table j (E.inputs s) adj a b h)

  adjacency_adds :
      (table : List (DigitalNet × ℕ)) (first i k : ℕ) (net : DigitalNet) (s : S) (devices : List S)
      (adj : List (List ℕ))
      → i < length adj
      → get_elem? devices k ≡ some s
      → (i == first + k) ≡ false
      → find_dev net table ≡ some i
      → 0 < count_p (λ x. net == x) (E.inputs s)
      → 0 < hits (adjacency E table first devices adj) i (first + k)
  unfolding adjacency
  adjacency_adds table first i k net s [] adj h at ne driven member = ground arith
  adjacency_adds table first i zero net s (d ∷ rest) adj h at ne driven member =
      let eq : d ≡ s = cc in
      let spot : first ≡ first + 0 = omega arith in
      let here : 0 < hits (add_edges table first (E.inputs d) adj) i first =
        add_edges_adds table i first net (E.inputs d) adj h (ground (arith, ne)) driven
          (subst (λ x. 0 < count_p (λ y. net == y) (E.inputs x)) (sym eq) member) in
      subst
        (λ w.
          0
          < hits (adjacency E table (first + 1) rest (add_edges table first (E.inputs d) adj)) i w)
        spot
        (adjacency_keeps table (first + 1) rest (add_edges table first (E.inputs d) adj) i first
          here)
  adjacency_adds table first i (suc k) net s (d ∷ rest) adj h at ne driven member =
      let spot : first + 1 + k ≡ first + suc k = omega arith in
      let shifted : (i == first + 1 + k) ≡ false = ground (arith, ne) in
      subst
        (λ w.
          0
          < hits (adjacency E table (first + 1) rest (add_edges table first (E.inputs d) adj)) i w)
        spot
        (adjacency_adds table (first + 1) i k net s rest (add_edges table first (E.inputs d) adj)
          (rw (length-add_edges table first (E.inputs d) adj) h) at shifted driven member)

  get_elem?-bound :
      (devices : List S) (k : ℕ) (s : S) → get_elem? devices k ≡ some s → k < length devices
  get_elem?-bound [] k s h = ground arith
  get_elem?-bound (d ∷ rest) zero s h = omega arith
  get_elem?-bound (d ∷ rest) (suc k) s h = omega (arith, get_elem?-bound rest k s h)

  -- The element that drives a net in the table of the code.
  abbrev pub driver : List S → DigitalNet → Option ℕ
  driver devices net = find_dev net (output_to_dev E 0 devices [])

  edges_of_adds :
      (devices : List S) (i j : ℕ) (s : S) (net : DigitalNet)
      → get_elem? devices j ≡ some s
      → 0 < count_p (λ x. net == x) (E.inputs s)
      → driver devices net ≡ some i
      → (i == j) ≡ false
      → (i < length devices) × (0 < hits (edges_of E devices) i j)
  unfolding edges_of
  edges_of_adds devices i j s net at member driven ne =
      let n = length devices in
      let table = output_to_dev E 0 devices [] in
      let every = output_to_dev-bound n 0 devices [] (omega arith) refl in
      let less = find_dev-bound n i net table every driven in
      let spot : 0 + j ≡ j = omega arith in
      (
        less,
        subst (λ w. 0 < hits (edges_of E devices) i w) spot
            (adjacency_adds table 0 i j net s devices (replicate n [])
              (rw (length-replicate {A = List ℕ} n []) less) at (ground (arith, ne)) driven member),
      )

  find_dev-insert_all :
      (net : DigitalNet) (nets : List DigitalNet) (i : ℕ) (table : List (DigitalNet × ℕ))
      → find_dev net (insert_all nets i table)
        ≡ (if ltb 0 (count_p (λ x. net == x) nets) then some i else find_dev net table)
  unfolding insert_all find_dev
  find_dev-insert_all net [] i table = refl
  find_dev-insert_all net (k ∷ nets) i table =
      find_dev-insert_all net nets i ((k, i) ∷ table) ∙ ground arith

  -- No element of the list drives the net.
  abbrev pub Undriven : DigitalNet → List S → Type 0
  Undriven net devices = Every (λ s. not (ltb 0 (count_p (λ x. net == x) (E.outputs s)))) devices

  abbrev pub drop : ℕ → List S → List S
  drop zero devices = devices
  drop (suc n) [] = []
  drop (suc n) (s ∷ rest) = drop n rest

  Undriven-keeps :
      (net : DigitalNet) (first : ℕ) (devices : List S) (table : List (DigitalNet × ℕ))
      → Undriven net devices
      → find_dev net (output_to_dev E first devices table) ≡ find_dev net table
  unfolding output_to_dev
  Undriven-keeps net first [] table h = refl
  Undriven-keeps net first (s ∷ rest) table h =
      Undriven-keeps net (first + 1) rest (insert_all (E.outputs s) first table) (ground arith)
      ∙ find_dev-insert_all net (E.outputs s) first table
      ∙ ground arith

  last_driver :
      (net : DigitalNet) (first i : ℕ) (d : S) (devices : List S) (table : List (DigitalNet × ℕ))
      → get_elem? devices i ≡ some d
      → 0 < count_p (λ x. net == x) (E.outputs d)
      → Undriven net (drop (suc i) devices)
      → find_dev net (output_to_dev E first devices table) ≡ some (first + i)
  unfolding output_to_dev
  last_driver net first i d [] table at drives h = ground arith
  last_driver net first zero d (s ∷ rest) table at drives h =
      let eq : s ≡ d = cc in
      let here : 0 < count_p (λ x. net == x) (E.outputs s) =
        subst (λ y. 0 < count_p (λ x. net == x) (E.outputs y)) (sym eq) drives in
      Undriven-keeps net (first + 1) rest (insert_all (E.outputs s) first table) h
      ∙ find_dev-insert_all net (E.outputs s) first table
      ∙ ground arith
  last_driver net first (suc i) d (s ∷ rest) table at drives h =
      last_driver net (first + 1) i d rest (insert_all (E.outputs s) first table) at drives h
      ∙ ap some (omega arith)

  -- Let `i` and `j` be two elements, and `net` an input of `j` that is an output of `i` and of no element
  -- after `i`. Then the topology has `i` before `j`, or it lists the way from the position of `i` to that
  -- of `j` as a back edge.
  pub build_forward :
      (devices : List S) (i j : ℕ) (d s : S) (net : DigitalNet)
      → get_elem? devices i ≡ some d
      → get_elem? devices j ≡ some s
      → 0 < count_p (λ x. net == x) (E.outputs d)
      → 0 < count_p (λ x. net == x) (E.inputs s)
      → Undriven net (drop (suc i) devices)
      → (i == j) ≡ false
      → (listed
            (build E devices).back_edges
            (index_of (build E devices).topo_order i)
            (index_of (build E devices).topo_order j)
          || before (build E devices).topo_order i j)
        ≡ true
  unfolding build
  build_forward [] i j d s net from at drives member undriven ne = ground arith
  build_forward (d₀ ∷ rest) i j d s net from at drives member undriven ne =
      let all = d₀ ∷ rest in
      let spot : 0 + i ≡ i = omega arith in
      let driven : driver all net ≡ some i =
        last_driver net 0 i d all [] from drives undriven ∙ ap some spot in
      let (less, hit) = edges_of_adds all i j s net at member driven ne in
      ranked_forward (length all) (edges_of E all) (edges_of-Targets E all) i j less
        (get_elem?-bound all j s at) hit
