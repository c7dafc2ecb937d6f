-- ===== src/Fused/Layout.antt =====
-- The slots of the variable banks and of the analog terminals.
use piperine.Common.{
  ℕ, suc, ◌<◌, ◌≡◌, ◌≢◌, inl, inr, Bool, not, ◌&&◌, List, [], ◌∷◌, none, some, ◌==◌, Bool-cases,
  arith,
}
use piperine.Fused.{
  VarType, Index, lookup, DigitalLayout, add_var, add_vars, add_nodes, empty_layout, LoweredBody,
  layout_of, index_from,
}

pub data Bank : Type 0 where
  int_bank real_bank analog_bank : Bank

abbrev pub slots : Bank → DigitalLayout → Index
slots Bank.int_bank l = l.int_slot
slots Bank.real_bank l = l.real_slot
slots Bank.analog_bank l = l.analog_index

abbrev pub size : Bank → DigitalLayout → ℕ
size Bank.int_bank l = l.num_int
size Bank.real_bank l = l.num_real
size Bank.analog_bank l = l.num_analog

-- Slots are below the size, and no two keys share one.
abbrev Packed : Index → ℕ → Type 0
Packed index n = (v w s : ℕ) → lookup index v ≡ some s → lookup index w ≡ some s → (s < n) × (v ≡ w)

none-some {ℓ} : {A : Type ℓ} {a : A} → none ≢ some a
none-some h = cc

same_slot {ℓ} : {A : Type ℓ} {a b : A} → some a ≡ some b → a ≡ b
same_slot h = cc

insert-Packed : (index : Index) (n id : ℕ) → Packed index n → Packed ((id, n) ∷ index) (suc n)
unfolding lookup
insert-Packed index n id packed v w s h k = elim (Bool-cases (id == v)) [
  | inl a ↦
      let new : n ≡ s = same_slot (rw (a, lookup) at h) in
      elim (Bool-cases (id == w)) [
        | inl b ↦ (omega arith, ground arith)
        | inr b ↦
            let (below, same) = packed w w s (rw (b, lookup) at k) (rw (b, lookup) at k) in
            absurd (omega arith)
      ]
  | inr a ↦
      let old : lookup index v ≡ some s = rw (a, lookup) at h in
      elim (Bool-cases (id == w)) [
        | inl b ↦
            let new : n ≡ s = same_slot (rw (b, lookup) at k) in
            let (below, same) = packed v v s old old in absurd (omega arith)
        | inr b ↦ let (below, same) = packed v w s old (rw (b, lookup) at k) in (omega arith, same)
      ]
]

abbrev AllPacked : DigitalLayout → Type 0
AllPacked l = (b : Bank) → Packed (slots b l) (size b l)

add_var-Packed : (v : ℕ × VarType) (l : DigitalLayout) → AllPacked l → AllPacked (add_var v l)
unfolding add_var
add_var-Packed (id, VarType.real) l p Bank.real_bank =
    insert-Packed l.real_slot l.num_real id (p Bank.real_bank)
add_var-Packed (id, VarType.real) l p Bank.int_bank = p Bank.int_bank
add_var-Packed (id, VarType.real) l p Bank.analog_bank = p Bank.analog_bank
add_var-Packed (id, t) l p Bank.int_bank = insert-Packed l.int_slot l.num_int id (p Bank.int_bank)
add_var-Packed (id, t) l p Bank.real_bank = p Bank.real_bank
add_var-Packed (id, t) l p Bank.analog_bank = p Bank.analog_bank

add_vars-Packed :
    (vs : List (ℕ × VarType)) (l : DigitalLayout) → AllPacked l → AllPacked (add_vars vs l)
unfolding add_vars
add_vars-Packed [] l p = p
add_vars-Packed (v ∷ vs) l p = add_vars-Packed vs (add_var v l) (add_var-Packed v l p)

add_analog-Packed :
    (id : ℕ) (l : DigitalLayout)
    → AllPacked l
    → AllPacked (record l {
      analog_index = (id, l.num_analog) ∷ l.analog_index;
      num_analog = suc l.num_analog;
    })
add_analog-Packed id l p Bank.int_bank = p Bank.int_bank
add_analog-Packed id l p Bank.real_bank = p Bank.real_bank
add_analog-Packed id l p Bank.analog_bank =
    insert-Packed l.analog_index l.num_analog id (p Bank.analog_bank)

add_nodes-Packed :
    (ns : List (ℕ × Bool)) (l : DigitalLayout) → AllPacked l → AllPacked (add_nodes ns l)
unfolding add_nodes
add_nodes-Packed [] l p = p
add_nodes-Packed ((id, is_analog) ∷ ns) l p = elim (Bool-cases (is_analog && not (id == 0))) [
  | inl h ↦ rw h (add_nodes-Packed ns _ (add_analog-Packed id l p))
  | inr h ↦ rw h (add_nodes-Packed ns l p)
]

-- In the bank of the integers, of the reals and of the analog terminals, a slot that the layout gives
-- to a variable or node is below the size of the bank, and is given to no other.
pub layout_of-slots :
    (b : LoweredBody) (k : Bank) (v w s : ℕ)
    → lookup (slots k (layout_of b)) v ≡ some s
    → lookup (slots k (layout_of b)) w ≡ some s
    → (s < size k (layout_of b)) × (v ≡ w)
unfolding layout_of lookup empty_layout
layout_of-slots b k v w s = add_nodes-Packed b.nodes _ (add_vars-Packed b.vars _ start) k v w s
  where
    start : AllPacked (record empty_layout {
      input_index = index_from 0 b.inputs [];
      output_index = index_from 0 b.outputs [];
    })
    start Bank.int_bank v' w' s' h k' = absurd (none-some h)
    start Bank.real_bank v' w' s' h k' = absurd (none-some h)
    start Bank.analog_bank v' w' s' h k' = absurd (none-some h)
