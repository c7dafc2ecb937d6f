-- ===== src/History/Examples.antt =====
-- The history buffer at work: three rows pushed into two.
use mathlib.Core.List.{reverse}
use piperine.Common.{
  ℕ, ◌≡◌, refl, true, List, [], ◌∷◌, none, some, arith, if◌then◌else◌, ltb, get_elem?,
}
use mathlib.Core.Option
use piperine.History.{
  CircularArrayBuffer, new, push, push_all, recorded, get_physical_index, row_at, view, latest, len,
  size, is_empty,
}
use piperine.History.Window.{view-recorded}

abbrev rows : List (List ℕ)
rows = (1 ∷ 10 ∷ []) ∷ (2 ∷ 20 ∷ []) ∷ (3 ∷ 30 ∷ []) ∷ []

shown_rows :
    (Option.map (λ b. view b 0) (recorded 0 2 2 rows) ≡ some (some (3 ∷ 30 ∷ [])))
    × (Option.map (λ b. view b 1) (recorded 0 2 2 rows) ≡ some (some (2 ∷ 20 ∷ [])))
    × (Option.map (λ b. view b 2) (recorded 0 2 2 rows) ≡ some none)
    × (Option.map latest (recorded 0 2 2 rows) ≡ some (some (3 ∷ 30 ∷ [])))
unfolding recorded new push_all push view get_physical_index row_at latest
shown_rows = (refl, refl, refl, refl)

sizes :
    (Option.map len (recorded 0 2 2 rows) ≡ some 2)
    × (Option.map size (recorded 0 2 2 rows) ≡ some 2)
    × (Option.map is_empty (recorded {V = ℕ} 0 2 2 []) ≡ some true)
unfolding recorded new push_all push len size is_empty
sizes = (refl, refl, refl)

view-recorded_example :
    (b : CircularArrayBuffer ℕ) × (recorded 0 2 2 rows ≡ some b)
    × ((k : ℕ) → view b k ≡ (if ltb k 2 then get_elem? (reverse rows) k else none))
view-recorded_example = view-recorded 0 2 2 rows (omega arith) refl
