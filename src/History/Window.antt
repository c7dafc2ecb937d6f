-- ===== src/History/Window.antt =====
-- The buffer shows the latest rows, newest first, as many as it has room for.
use mathlib.Core.List.{reverse, reverse-cons, append_assoc, append-nil}
use native.Mathlib.Nat.{mod-eq_of_lt, add-mod_right}
use piperine.Common.{
  ℕ, zero, suc, ◌+◌, ◌-◌, ◌%◌, ◌≡◌, ◌≢◌, ◌<◌, refl, sym, ap, ◌∙◌, inl, inr, List, [], ◌∷◌, ◌++◌,
  none, some, length, length-set, length-replicate, replicate, get_elem?, get_elem?-set,
  get_elem?-none, set, if◌then◌else◌, ltb, ◌==◌, arith, Every, Option-cases, Bool-cases, subst,
}
use piperine.History.{
  CircularArrayBuffer, nrows, new, push, get_physical_index, row_at, view, size, push_all, recorded,
}

-- The physical index of a row, without the remainder.
abbrev slot : ℕ → ℕ → ℕ → ℕ
slot c n k = if ltb k c then c - 1 - k else c + n - 1 - k

-- The cursor after a push, without the remainder.
abbrev advance : ℕ → ℕ → ℕ
advance c n = if c + 1 == n then 0 else c + 1

wrapped : (c n k : ℕ) → c < n → k < n → (c + n - 1 - k) % n ≡ slot c n k
wrapped c n k h l = elim (Bool-cases (ltb k c)) [
  | inl e ↦
      let back : c + n - 1 - k ≡ c - 1 - k + n = ground arith in
      rw (e, back) (add-mod_right (c - 1 - k) n ∙ mod-eq_of_lt (ground arith))
  | inr e ↦ rw e (mod-eq_of_lt (ground arith))
]

advanced : (c n : ℕ) → c < n → (c + 1) % n ≡ advance c n
advanced c n h = grind arith

slot-zero : (c n : ℕ) → c < n → slot (advance c n) n 0 ≡ c
slot-zero c n h = ground arith

slot-suc : (c n k : ℕ) → c < n → suc k < n → slot (advance c n) n (suc k) ≡ slot c n k
slot-suc c n k h l = ground arith

slot_ne : (c n k : ℕ) → c < n → suc k < n → c ≢ slot c n k
slot_ne c n k h l = ground arith

module _ {ℓ} {V : Type ℓ} where
  -- The ring `b` holds the newest rows of `hist`, which lists all rows pushed, newest first.
  pub record IsRing (b : CircularArrayBuffer V) (hist : List (List V)) : Type ℓ where
    pub cursor_lt : b.cursor < nrows b
    pub count_eq : b.count ≡ (if ltb (length hist) (nrows b) then length hist else nrows b)
    pub rows :
        (k : ℕ)
        → k < b.count
        → get_elem? b.buffer.rows (slot b.cursor (nrows b) k) ≡ get_elem? hist k

  new-IsRing :
      (zero_value : V) (capacity width : ℕ) (b : CircularArrayBuffer V)
      → new zero_value capacity width ≡ some b
      → IsRing b [] × (nrows b ≡ capacity)
  unfolding new
  new-IsRing zero_value capacity width b h =
      let sized = length-replicate {A = List V} capacity (replicate width zero_value) in
      (
        record {
          cursor_lt = ground (arith, sized);
          count_eq = ground (arith, sized);
          rows = λ k l. absurd (ground arith);
        },
        ground (arith, sized),
      )

  abbrev pushed : CircularArrayBuffer V → List V → CircularArrayBuffer V
  pushed b row = record {
    buffer = record { rows = set b.buffer.rows b.cursor row; ncols = b.buffer.ncols };
    cursor = (b.cursor + 1) % nrows b;
    count = if ltb b.count (nrows b) then b.count + 1 else b.count;
  }

  push_some :
      (b b' : CircularArrayBuffer V) (row : List V) → push b row ≡ some b' → pushed b row ≡ b'
  unfolding push
  push_some b b' row h = ground arith

  pushed-rows :
      (b : CircularArrayBuffer V) (row : List V) (hist : List (List V))
      → IsRing b hist
      → (k : ℕ) → k < (pushed b row).count
      → get_elem? (set b.buffer.rows b.cursor row) (slot (advance b.cursor (nrows b)) (nrows b) k)
        ≡ get_elem? (row ∷ hist) k
  pushed-rows b row hist ring zero l =
      rw (slot-zero b.cursor (nrows b) ring.cursor_lt)
        (ground (arith, get_elem?-set b.buffer.rows b.cursor b.cursor row, ring.cursor_lt))
  pushed-rows b row hist ring (suc k) l =
      let room : suc k < nrows b = ground (arith, ring.count_eq) in
      rw (slot-suc b.cursor (nrows b) k ring.cursor_lt room) (
        ground (
          arith,
          get_elem?-set b.buffer.rows b.cursor (slot b.cursor (nrows b) k) row,
          slot_ne b.cursor (nrows b) k ring.cursor_lt room,
          ring.rows k,
        ))

  push-IsRing :
      (b b' : CircularArrayBuffer V) (row : List V) (hist : List (List V))
      → push b row ≡ some b'
      → IsRing b hist
      → IsRing b' (row ∷ hist) × (nrows b' ≡ nrows b)
  push-IsRing b b' row hist h ring =
      let size = length-set b.buffer.rows b.cursor row in
      let at = advanced b.cursor (nrows b) ring.cursor_lt in
      subst (λ c. IsRing c (row ∷ hist) × (nrows c ≡ nrows b)) (push_some b b' row h)
        (
          record {
            cursor_lt = rw (size, at) (ground (arith, ring.cursor_lt));
            count_eq = rw size (ground (arith, ring.count_eq));
            rows = rw (size, at) (pushed-rows b row hist ring);
          },
          size,
        )

  pub push_fits :
      (b : CircularArrayBuffer V) (row : List V) → length row ≡ b.buffer.ncols → push b row ≢ none
  unfolding push
  push_fits b row h = ground arith

  push_width :
      (b b' : CircularArrayBuffer V) (row : List V) (rows : List (List V))
      → push b row ≡ some b'
      → Every (λ r. length r == b.buffer.ncols) rows
      → Every (λ r. length r == b'.buffer.ncols) rows
  unfolding push
  push_width b b' row rows e h =
      subst (λ c. Every (λ r. length r == c.buffer.ncols) rows) (push_some b b' row e) h

  pub new_some :
      (zero_value : V) (capacity width : ℕ)
      → 0 < capacity
      → (b : CircularArrayBuffer V) × (new zero_value capacity width ≡ some b)
        × (b.buffer.ncols ≡ width)
  unfolding new
  new_some zero_value capacity width h = (
    record {
      buffer = record { rows = replicate capacity (replicate width zero_value); ncols = width };
      cursor = 0;
      count = 0;
    },
    ground arith,
    refl,
  )

  view-ring :
      (b : CircularArrayBuffer V) (hist : List (List V)) (k : ℕ)
      → IsRing b hist
      → view b k ≡ (if ltb k (nrows b) then get_elem? hist k else none)
  unfolding view get_physical_index row_at
  view-ring b hist k ring = elim (Bool-cases (ltb k b.count)) [
    | inl e ↦
        let l : k < b.count = ground arith in
        let fits : k < nrows b = ground (arith, ring.count_eq) in
        ground (arith, wrapped b.cursor (nrows b) k ring.cursor_lt fits, ring.rows k l)
    | inr e ↦ ground (arith, ring.count_eq, get_elem?-none hist k)
  ]

  push_all-IsRing :
      (b : CircularArrayBuffer V) (rows hist : List (List V))
      → Every (λ r. length r == b.buffer.ncols) rows
      → IsRing b hist
      → (b' : CircularArrayBuffer V) × (push_all b rows ≡ some b')
        × IsRing b' (reverse rows ++ hist)
        × (nrows b' ≡ nrows b)
  unfolding push_all
  push_all-IsRing b [] hist widths ring = (b, refl, ring, refl)
  push_all-IsRing b (row ∷ rows) hist widths ring = elim (Option-cases (push b row)) [
    | inl e ↦ absurd (push_fits b row (ground arith) e)
    | inr (b₁, e) ↦
        let (ring₁, size₁) = push-IsRing b b₁ row hist e ring in
        let (b', ran, ring', size') =
          push_all-IsRing b₁ rows (row ∷ hist) (push_width b b₁ row rows e (ground arith)) ring₁ in
        (
          b',
          rw (e, push_all) ran,
          subst (IsRing b')
              (sym (
                ap (λ l. l ++ hist) (reverse-cons row rows)
                ∙ append_assoc (reverse rows) (row ∷ []) hist))
              ring',
          size' ∙ size₁,
        )
  ]

  -- Rows of the width of the buffer can always be pushed, and then looking back `k` rows shows the row
  -- pushed `k` pushes ago, if the buffer has room for it and so many rows were pushed, and nothing else.
  pub view-recorded :
      (zero_value : V) (capacity width : ℕ) (rows : List (List V))
      → 0 < capacity
      → Every (λ r. length r == width) rows
      → (b : CircularArrayBuffer V) × (recorded zero_value capacity width rows ≡ some b)
        × ((k : ℕ) → view b k ≡ (if ltb k capacity then get_elem? (reverse rows) k else none))
  unfolding recorded
  view-recorded zero_value capacity width rows h widths =
      let (b₀, made, cols) = new_some zero_value capacity width h in
      let (ring₀, size₀) = new-IsRing zero_value capacity width b₀ made in
      let (b, ran, ring, size) =
        push_all-IsRing b₀ rows [] (subst (λ w. Every (λ r. length r == w) rows) (sym cols) widths)
          ring₀ in
      (
        b,
        rw (made, recorded) ran,
        λ k. view-ring b (reverse rows ++ []) k ring ∙ rw (append-nil, size, size₀) refl,
      )
