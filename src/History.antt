-- ===== src/History.antt =====
-- `CircularArrayBuffer2` of crates/piperine-solver/src/math/circular_array.rs: the latest rows of the
-- solution, in a ring of a fixed number of rows.
pub mod Window
mod Examples
use piperine.Common.{
  ℕ, suc, ◌+◌, ◌-◌, ◌%◌, Bool, true, false, ◌||◌, List, [], ◌∷◌, Option, none, some, length,
  get_elem?, set, replicate, if◌then◌else◌, ltb, leb, ◌==◌,
}

-- `Array2`: its rows, and the number of columns.
pub record Array2 {ℓ} (V : Type ℓ) : Type ℓ where
  pub rows : List (List V)
  pub ncols : ℕ

pub record CircularArrayBuffer {ℓ} (V : Type ℓ) : Type ℓ where
  pub buffer : Array2 V
  pub cursor : ℕ
  pub count : ℕ

module _ {ℓ} {V : Type ℓ} where
  abbrev pub nrows : CircularArrayBuffer V → ℕ
  nrows b = length b.buffer.rows

  -- `none` is the failed assertion that the capacity is not zero.
  unfoldable pub new : V → ℕ → ℕ → Option (CircularArrayBuffer V)
  new zero_value capacity size =
      if ltb 0 capacity
      then some (record {
        buffer = record { rows = replicate capacity (replicate size zero_value); ncols = size };
        cursor = 0;
        count = 0;
      })
      else none

  -- `none` is the failed assertion on the length of the row.
  unfoldable pub push : CircularArrayBuffer V → List V → Option (CircularArrayBuffer V)
  push b values =
      if length values == b.buffer.ncols
      then some (record {
        buffer = record { rows = set b.buffer.rows b.cursor values; ncols = b.buffer.ncols };
        cursor = (b.cursor + 1) % nrows b;
        count = if ltb b.count (nrows b) then b.count + 1 else b.count;
      })
      else none

  unfoldable pub get_physical_index : CircularArrayBuffer V → ℕ → Option ℕ
  get_physical_index b lookback =
      if leb b.count lookback || b.count == 0
      then none
      else some ((b.cursor + nrows b - 1 - lookback) % nrows b)

  -- `self.buffer.row(idx?)`
  unfoldable pub row_at : CircularArrayBuffer V → Option ℕ → Option (List V)
  row_at b none = none
  row_at b (some idx) = get_elem? b.buffer.rows idx

  unfoldable pub view : CircularArrayBuffer V → ℕ → Option (List V)
  view b lookback = if ltb b.count lookback then none else row_at b (get_physical_index b lookback)

  unfoldable pub latest : CircularArrayBuffer V → Option (List V)
  latest b = if b.count == 0 then none else view b 0

  unfoldable pub len : CircularArrayBuffer V → ℕ
  len b = b.count

  unfoldable pub size : CircularArrayBuffer V → ℕ
  size b = b.buffer.ncols

  unfoldable pub is_empty : CircularArrayBuffer V → Bool
  is_empty b = b.count == 0

  -- The rows in turn; `none` if some row has another length.
  unfoldable pub push_all : CircularArrayBuffer V → List (List V) → Option (CircularArrayBuffer V)
  push_all b [] = some b
  push_all b (r ∷ rs) = elim (push b r) [ none ↦ none | some b' ↦ push_all b' rs ]

  -- A new buffer, and then the rows in turn.
  unfoldable pub recorded : V → ℕ → ℕ → List (List V) → Option (CircularArrayBuffer V)
  recorded zero_value capacity width rows = elim (new zero_value capacity width) [
    | none ↦ none
    | some b ↦ push_all b rows
  ]
