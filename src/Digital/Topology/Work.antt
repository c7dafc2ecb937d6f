-- ===== src/Digital/Topology/Work.antt =====
-- What the depth-first search has left to do, counted.
use piperine.Common.{
  ℕ, zero, suc, ◌+◌, ◌-◌, ◌==◌, ◌≡◌, ◌≤◌, ◌<◌, refl, ◌⊎◌, inl, inr, List, [], ◌∷◌, length, get_or,
  set, if◌then◌else◌, arith,
}
use piperine.Digital.Topology.{Dfs, weight}

abbrev pub color_of : Dfs → ℕ → ℕ
color_of d v = get_or d.color v 0

abbrev pub targets : List (List ℕ) → ℕ → List ℕ
targets adj v = get_or adj v []

-- What is left to do: for the unvisited, to be entered, followed and left; for those on the stack, the
-- edges not yet looked at.
unfoldable pub white : List (List ℕ) → List ℕ → ℕ
white [] cs = 0
white (a ∷ adj) [] = 0
white (a ∷ adj) (c ∷ cs) = (if c == 0 then length a + 2 else 0) + white adj cs

unfoldable pub pending : List (List ℕ) → List (ℕ × ℕ) → ℕ
pending adj [] = 0
pending adj ((v, ai) ∷ rest) = length (targets adj v) - ai + 1 + pending adj rest

pub white-set :
    (adj : List (List ℕ)) (cs : List ℕ) (u c : ℕ)
    → length adj ≡ length cs
    → u < length cs
    → get_or cs u 0 ≡ 0
    → 0 < c
    → white adj (set cs u c) + length (targets adj u) + 2 ≡ white adj cs
unfolding white
white-set [] [] u c h k e z = elim k [ ]
white-set [] (x ∷ cs) u c h k e z = absurd (omega arith)
white-set (a ∷ adj) [] u c h k e z = elim k [ ]
white-set (a ∷ adj) (x ∷ cs) zero c h k e z = ground arith
white-set (a ∷ adj) (x ∷ cs) (suc u) c h k e z =
    ground (arith, white-set adj cs u c (omega arith) (omega arith) e z)

pub white-set_le :
    (adj : List (List ℕ)) (cs : List ℕ) (u c : ℕ) → 0 < c → white adj (set cs u c) ≤ white adj cs
unfolding white
white-set_le [] cs u c z = omega arith
white-set_le (a ∷ adj) [] u c z = omega arith
white-set_le (a ∷ adj) (x ∷ cs) zero c z = ground arith
white-set_le (a ∷ adj) (x ∷ cs) (suc u) c z = ground (arith, white-set_le adj cs u c z)

pub white_le : (adj : List (List ℕ)) (cs : List ℕ) → white adj cs ≤ weight adj
unfolding white weight
white_le [] cs = omega arith
white_le (a ∷ adj) [] = omega arith
white_le (a ∷ adj) (c ∷ cs) = ground (arith, white_le adj cs)

pub stack-cases :
    (stack : List (ℕ × ℕ))
    → (stack ≡ []) ⊎ ((v ai : ℕ) × (rest : List (ℕ × ℕ)) × (stack ≡ (v, ai) ∷ rest))
stack-cases [] = inl refl
stack-cases ((v, ai) ∷ rest) = inr (v, ai, rest, refl)

pub get_or-set_at :
    (cs : List ℕ) (u c v : ℕ)
    → u < length cs
    → get_or (set cs u c) v 0 ≡ (if v == u then c else get_or cs v 0)
get_or-set_at [] u c v h = elim h [ ]
get_or-set_at (x ∷ cs) zero c zero h = ground arith
get_or-set_at (x ∷ cs) zero c (suc v) h = ground arith
get_or-set_at (x ∷ cs) (suc u) c zero h = ground arith
get_or-set_at (x ∷ cs) (suc u) c (suc v) h = ground (arith, get_or-set_at cs u c v (omega arith))
