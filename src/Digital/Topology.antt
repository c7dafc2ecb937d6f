-- ===== src/Digital/Topology.antt =====
-- `DigitalTopology::build` of crates/piperine-solver/src/digital/topology.rs: a depth-first order of the
-- elements, with the back edges. The indices into its tables are in range, so reading gives 0 or
-- nothing elsewhere.
pub mod Work
pub mod Search
pub mod Order
pub mod Forward
pub mod Edges
pub mod Adjacency
pub mod Ports
pub mod Backs
mod Examples
use piperine.Common.{
  ℕ, zero, suc, ◌+◌, ◌==◌, ◌||◌, ◌&&◌, not, Bool, true, false, List, [], ◌∷◌, ◌++◌, Option, none,
  some, length, get_or, set, replicate, map, ltb, if◌then◌else◌, contains,
}
use piperine.F64.{F64}
use piperine.Digital.Event.{DigitalNet}
use piperine.Digital.Interface.{Element}
use piperine.Digital.Dag.{DigitalTopology}

-- `output_to_dev.insert(net, i)` for each of the nets; the latest entry stands first.
unfoldable pub insert_all : List DigitalNet → ℕ → List (DigitalNet × ℕ) → List (DigitalNet × ℕ)
insert_all [] i table = table
insert_all (net ∷ nets) i table = insert_all nets i ((net, i) ∷ table)

-- `output_to_dev.get(&net)`
unfoldable pub find_dev : DigitalNet → List (DigitalNet × ℕ) → Option ℕ
find_dev net [] = none
find_dev net ((k, i) ∷ table) = let rest = find_dev net table in if k == net then some i else rest

-- `if let Some(&i) = .. && i != j && !adj[i].contains(&j) { adj[i].push(j) }`
unfoldable pub add_edge : List (List ℕ) → ℕ → Option ℕ → List (List ℕ)
add_edge adj j none = adj
add_edge adj j (some i) =
    if not (i == j) && not (contains ◌==◌ (get_or adj i []) j)
    then set adj i (get_or adj i [] ++ j ∷ [])
    else adj

unfoldable pub add_edges :
    List (DigitalNet × ℕ) → ℕ → List DigitalNet → List (List ℕ) → List (List ℕ)
add_edges table j [] adj = adj
add_edges table j (net ∷ nets) adj = add_edges table j nets (add_edge adj j (find_dev net table))

module _ {F : F64} {S : Type 0} (E : Element F S) where
  unfoldable pub output_to_dev : ℕ → List S → List (DigitalNet × ℕ) → List (DigitalNet × ℕ)
  output_to_dev i [] table = table
  output_to_dev i (s ∷ rest) table = output_to_dev (i + 1) rest (insert_all (E.outputs s) i table)

  unfoldable pub adjacency : List (DigitalNet × ℕ) → ℕ → List S → List (List ℕ) → List (List ℕ)
  adjacency table j [] adj = adj
  adjacency table j (s ∷ rest) adj =
      adjacency table (j + 1) rest (add_edges table j (E.inputs s) adj)

-- The tables of the search: `color` is 0 for unvisited, 1 for on the stack, 2 for done. `order` is
-- `topo_rev` with the latest first; the top of `stack` stands first.
pub record Dfs : Type 0 where
  pub color : List ℕ
  pub order : List ℕ
  pub raw_back : List (ℕ × ℕ)
  pub stack : List (ℕ × ℕ)

-- The match on `color[u]`, after `*ai += 1`.
unfoldable pub look : ℕ → ℕ → ℕ → List (ℕ × ℕ) → Dfs → Dfs
look v u ai rest d =
    if get_or d.color u 0 == 0
    then record d { color = set d.color u 1; stack = (u, 0) ∷ (v, ai + 1) ∷ rest }
    else if get_or d.color u 0 == 1
    then record d { raw_back = d.raw_back ++ (v, u) ∷ []; stack = (v, ai + 1) ∷ rest }
    else record d { stack = (v, ai + 1) ∷ rest }

-- The `else` branch of the loop.
unfoldable pub leave : ℕ → List (ℕ × ℕ) → Dfs → Dfs
leave v rest d = record d { color = set d.color v 2; order = v ∷ d.order; stack = rest }

-- One turn of the `while` loop on the top of the stack.
unfoldable pub turn : List (List ℕ) → ℕ → ℕ → List (ℕ × ℕ) → Dfs → Dfs
turn adj v ai rest d =
    if ltb ai (length (get_or adj v []))
    then look v (get_or (get_or adj v []) ai 0) ai rest d
    else leave v rest d

-- The `while` loop, on fuel.
unfoldable pub search_loop : List (List ℕ) → ℕ → Dfs → Dfs
search_loop adj zero d = d
search_loop adj (suc fuel) d = elim d.stack [
  | [] ↦ d
  | (v, ai) ∷ rest ↦ search_loop adj fuel (turn adj v ai rest d)
]

-- The fuel of a search: an element is entered and left at most once, and each of its edges looked at.
unfoldable pub weight : List (List ℕ) → ℕ
weight [] = 0
weight (targets ∷ adj) = length targets + 2 + weight adj

unfoldable pub visit : List (List ℕ) → ℕ → Dfs → Dfs
visit adj start d =
    if get_or d.color start 0 == 0
    then search_loop adj (weight adj)
        (record d { color = set d.color start 1; stack = (start, 0) ∷ [] })
    else d

-- `for start in 0..n`, with `left` rounds left.
unfoldable pub visit_all : List (List ℕ) → ℕ → ℕ → Dfs → Dfs
visit_all adj zero start d = d
visit_all adj (suc left) start d = visit_all adj left (start + 1) (visit adj start d)

-- `for (pos, &dev) in topo_order.iter().enumerate() { dev_to_pos[dev] = pos }`
unfoldable pub positions : ℕ → List ℕ → List ℕ → List ℕ
positions pos [] table = table
positions pos (dev ∷ order) table = positions (pos + 1) order (set table dev pos)

unfoldable pub place : List ℕ → ℕ × ℕ → ℕ × ℕ
place dev_to_pos (src, dst) = (get_or dev_to_pos src 0, get_or dev_to_pos dst 0)

unfoldable pub searched : List (List ℕ) → ℕ → Dfs
searched adj n =
    visit_all adj n 0 (record { color = replicate n 0; order = []; raw_back = []; stack = [] })

unfoldable pub ranked_order : List (List ℕ) → ℕ → DigitalTopology
ranked_order adj n =
    let d = searched adj n in
    let dev_to_pos = positions 0 d.order (replicate n 0) in
    record { topo_order = d.order; back_edges = map (place dev_to_pos) d.raw_back }

module _ {F : F64} {S : Type 0} (E : Element F S) where
  unfoldable pub edges_of : List S → List (List ℕ)
  edges_of devices =
      adjacency E (output_to_dev E 0 devices []) 0 devices (replicate (length devices) [])

  -- The early return on no devices gives what the rest would give.
  unfoldable pub build : List S → DigitalTopology
  build [] = record { topo_order = []; back_edges = [] }
  build (s ∷ rest) = ranked_order (edges_of (s ∷ rest)) (length (s ∷ rest))
