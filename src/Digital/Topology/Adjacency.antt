-- ===== src/Digital/Topology/Adjacency.antt =====
-- The edges that the inputs of one element add.
use piperine.Common.{
  ℕ, zero, suc, ◌==◌, ◌&&◌, not, ◌≡◌, ◌≤◌, ◌<◌, refl, sym, ◌∙◌, subst, inl, inr, true, false, List,
  [], ◌∷◌, ◌++◌, Option, none, some, length, get_or, set, length-set, if◌then◌else◌, ltb, arith,
  count_p, count_p-append, Bool-cases, contains, contains_iff,
}
use piperine.Digital.Event.{DigitalNet}
use piperine.Digital.Topology.{find_dev, add_edge, add_edges}
use piperine.Digital.Topology.Order.{same_number}

get_or-set_any {ℓ} :
    {A : Type ℓ} (xs : List A) (i j : ℕ) (v d : A)
    → get_or (set xs i v) j d ≡ (if j == i && ltb i (length xs) then v else get_or xs j d)
get_or-set_any [] i j v d = ground arith
get_or-set_any (x ∷ xs) zero zero v d = ground arith
get_or-set_any (x ∷ xs) zero (suc j) v d = ground arith
get_or-set_any (x ∷ xs) (suc i) zero v d = ground arith
get_or-set_any (x ∷ xs) (suc i) (suc j) v d = ground (arith, get_or-set_any xs i j v d)

-- How often `b` is a target of `a`.
abbrev pub hits : List (List ℕ) → ℕ → ℕ → ℕ
hits adj a b = count_p (λ x. b == x) (get_or adj a [])

length-add_edge :
    (adj : List (List ℕ)) (j : ℕ) (o : Option ℕ) → length (add_edge adj j o) ≡ length adj
unfolding add_edge
length-add_edge adj j none = refl
length-add_edge adj j (some i) =
    elim (Bool-cases (not (i == j) && not (contains ◌==◌ (get_or adj i []) j))) [
      | inl c ↦ rw (add_edge, c) (length-set adj i (get_or adj i [] ++ j ∷ []))
      | inr c ↦ rw (add_edge, c) refl
    ]

add_edge_keeps :
    (adj : List (List ℕ)) (j : ℕ) (o : Option ℕ) (a b : ℕ)
    → 0 < hits adj a b
    → 0 < hits (add_edge adj j o) a b
unfolding add_edge
add_edge_keeps adj j none a b h = h
add_edge_keeps adj j (some i) a b h =
    elim (Bool-cases (not (i == j) && not (contains ◌==◌ (get_or adj i []) j))) [
      | inr c ↦ rw (add_edge, c) h
      | inl c ↦
          let grown = get_or adj i [] ++ j ∷ [] in
          elim (Bool-cases (a == i && ltb i (length adj))) [
            | inl here ↦
                let eq : a ≡ i = ground arith in
                let longer : hits adj i b ≤ count_p (λ x. b == x) grown =
                  omega (arith, count_p-append (λ x. b == x) (get_or adj i []) (j ∷ [])) in
                rw (add_edge, c, get_or-set_any adj i a grown [], here)
                  (omega (arith, longer, subst (λ w. 0 < hits adj w b) eq h))
            | inr there ↦ rw (add_edge, c, get_or-set_any adj i a grown [], there) h
          ]
    ]

add_edge_adds :
    (adj : List (List ℕ)) (i j : ℕ)
    → i < length adj
    → (i == j) ≡ false
    → 0 < hits (add_edge adj j (some i)) i j
unfolding add_edge
add_edge_adds adj i j h ne = elim (Bool-cases (contains ◌==◌ (get_or adj i []) j)) [
  | inl c ↦ rw (add_edge, ne, c) ((contains_iff ◌==◌ same_number (get_or adj i []) j).0 c)
  | inr c ↦
      let grown = get_or adj i [] ++ j ∷ [] in
      let here : (i == i && ltb i (length adj)) ≡ true = ground arith in
      rw (add_edge, ne, c, get_or-set_any adj i i grown [], here)
        (ground (arith, count_p-append (λ x. j == x) (get_or adj i []) (j ∷ [])))
]

pub add_edges_keeps :
    (table : List (DigitalNet × ℕ)) (j : ℕ) (nets : List DigitalNet) (adj : List (List ℕ)) (a b : ℕ)
    → 0 < hits adj a b
    → 0 < hits (add_edges table j nets adj) a b
unfolding add_edges
add_edges_keeps table j [] adj a b h = h
add_edges_keeps table j (net ∷ nets) adj a b h =
    add_edges_keeps table j nets (add_edge adj j (find_dev net table)) a b
      (add_edge_keeps adj j (find_dev net table) a b h)

pub length-add_edges :
    (table : List (DigitalNet × ℕ)) (j : ℕ) (nets : List DigitalNet) (adj : List (List ℕ))
    → length (add_edges table j nets adj) ≡ length adj
unfolding add_edges
length-add_edges table j [] adj = refl
length-add_edges table j (net ∷ nets) adj =
    length-add_edges table j nets (add_edge adj j (find_dev net table))
    ∙ length-add_edge adj j (find_dev net table)

-- Every input of element `j` with a driver `i` makes `j` a target of `i`.
pub add_edges_adds :
    (table : List (DigitalNet × ℕ)) (i j : ℕ) (net : DigitalNet) (nets : List DigitalNet)
    (adj : List (List ℕ))
    → i < length adj
    → (i == j) ≡ false
    → find_dev net table ≡ some i
    → 0 < count_p (λ x. net == x) nets
    → 0 < hits (add_edges table j nets adj) i j
unfolding add_edges
add_edges_adds table i j net [] adj h ne driven member = elim member [ ]
add_edges_adds table i j net (first ∷ nets) adj h ne driven member =
    elim (Bool-cases (net == first)) [
      | inl c ↦
          let eq : net ≡ first = ground arith in
          let found : find_dev first table ≡ some i =
            subst (λ x. find_dev x table ≡ some i) eq driven in
          add_edges_keeps table j nets (add_edge adj j (find_dev first table)) i j
            (subst (λ o. 0 < hits (add_edge adj j o) i j) (sym found) (add_edge_adds adj i j h ne))
      | inr c ↦
          add_edges_adds table i j net nets (add_edge adj j (find_dev first table))
            (rw (length-add_edge adj j (find_dev first table)) h) ne driven (ground arith)
    ]
