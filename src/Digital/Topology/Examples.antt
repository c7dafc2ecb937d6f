-- ===== src/Digital/Topology/Examples.antt =====
-- The topology of two elements in a ring and of one that waits for both.
use piperine.Common.{Every, arith, ◌||◌, ◌≡◌, refl, List, [], ◌∷◌, count_p, ◌==◌, true, false}
use piperine.F64.{ticks}
use piperine.Digital.Event.{DigitalNet}
use piperine.Digital.Interface.{Element}
use piperine.Digital.Topology.Backs.{joins, build_back_edges}
use piperine.Digital.Topology.{
  insert_all, find_dev, add_edge, add_edges, output_to_dev, adjacency, look, leave, turn,
  search_loop, weight, visit, visit_all, positions, place, searched, ranked_order, edges_of, build,
}
use piperine.Digital.Topology.Forward.{before, listed}
use piperine.Digital.Topology.Edges.{index_of}
use piperine.Digital.Topology.Ports.{build_forward}
use piperine.Digital.Topology.Order.{build_once}

-- The nets that an element reads and drives are its state.
abbrev ports : Element ticks (List DigitalNet × List DigitalNet)
ports = record {
  inputs = λ s. s.0;
  outputs = λ s. s.1;
  init = λ s. (s, []);
  seq_phase = λ ctx s. (s, false);
  comb_phase = λ ctx s. (s, []);
  is_digital = λ s. true;
}

-- Element 1 and element 2 form a ring, and element 0 reads from it.
abbrev ring : List (List DigitalNet × List DigitalNet)
ring = (5 ∷ [], 7 ∷ []) ∷ (6 ∷ [], 5 ∷ []) ∷ (5 ∷ [], 6 ∷ []) ∷ []

ring_topology : build ports ring ≡ record { topo_order = 1 ∷ 2 ∷ 0 ∷ []; back_edges = (1, 0) ∷ [] }
unfolding build edges_of ranked_order searched visit_all visit search_loop turn look leave weight
    positions place adjacency output_to_dev insert_all find_dev add_edge add_edges
ring_topology = refl

build_once_example : count_p (λ x. 2 == x) (build ports ring).topo_order ≡ 1
build_once_example = build_once ports ring 2

build_back_edges_example :
    Every (joins (edges_of ports ring) (build ports ring).topo_order) (build ports ring).back_edges
build_back_edges_example = build_back_edges ports ring

build_forward_example :
    (listed
        (build ports ring).back_edges
        (index_of (build ports ring).topo_order 2)
        (index_of (build ports ring).topo_order 1)
      || before (build ports ring).topo_order 2 1)
    ≡ true
unfolding output_to_dev insert_all find_dev
build_forward_example =
    build_forward ports ring 2 1 (5 ∷ [], 6 ∷ []) (6 ∷ [], 5 ∷ []) 6 refl refl (omega arith)
      (omega arith) refl refl
