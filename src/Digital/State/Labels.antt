-- ===== src/Digital/State/Labels.antt =====
-- What `set_label` does to the label of every net, and where that is not what its comment says.
use piperine.Common.{
  ℕ, zero, suc, ◌+◌, ◌-◌, ◌≡◌, ◌≢◌, ◌<◌, refl, sym, ◌∙◌, ◌&&◌, List, [], ◌∷◌, ◌++◌, none, some,
  length, get_elem?, get_elem?-set, get_elem?-none, replicate, length-append, length-replicate,
  if◌then◌else◌, leb, ltb, ◌==◌, Text, decimal_injective, arith,
}
use piperine.F64.{F64}
use piperine.BinaryHeap.{BinaryHeap}
use piperine.Digital.Event.{DigitalEvent, DigitalNet, event_leq}
use piperine.Digital.State.{
  DigitalState, anonymous, resize, write_label, label_text, read_label, set_label, label_or_default,
}

anonymous_injective : (m n : ℕ) → anonymous m ≡ anonymous n → m ≡ n
unfolding anonymous
anonymous_injective m n e = decimal_injective m n (cc)

-- The label of a net under which `label` was stored.
abbrev pub shown : Text → ℕ → Text
shown [] net = anonymous net
shown (c ∷ cs) net = c ∷ cs

module _ {ℓ} {A : Type ℓ} where
  get_elem?-pad :
      (xs : List A) (n j : ℕ) (v : A)
      → get_elem? (xs ++ replicate n v) j ≡ (
          if ltb j (length xs)
          then get_elem? xs j
          else if ltb j (length xs + n)
          then some v
          else none)
  get_elem?-pad [] zero j v = ground arith
  get_elem?-pad [] (suc n) zero v = ground arith
  get_elem?-pad [] (suc n) (suc j) v = ground (arith, get_elem?-pad [] n j v)
  get_elem?-pad (x ∷ xs) n zero v = ground arith
  get_elem?-pad (x ∷ xs) n (suc j) v = ground (arith, get_elem?-pad xs n j v)

get_elem?-write_label :
    (labels : List Text) (net other : ℕ) (label : Text)
    → get_elem? (write_label labels net label) other ≡ (
        if net == other
        then some label
        else if leb (length labels) other && ltb other net
        then some (anonymous (length labels))
        else get_elem? labels other)
unfolding write_label resize
get_elem?-write_label labels net other label =
    let fill = anonymous (length labels) in
    let more = net + 1 - length labels in
    ground (
      arith,
      get_elem?-set (labels ++ replicate more fill) net other label,
      get_elem?-set labels net other label,
      get_elem?-pad labels more other fill,
      get_elem?-none labels other,
      length-append labels (replicate more fill),
      length-replicate more fill,
    )

label_text-some : (idx : ℕ) (label : Text) → label_text idx (some label) ≡ shown label idx
unfolding label_text
label_text-some idx [] = refl
label_text-some idx (c ∷ cs) = refl

label_text-anonymous : (idx n : ℕ) → label_text idx (some (anonymous n)) ≡ anonymous n
unfolding label_text anonymous
label_text-anonymous idx n = refl

label_text-none : (idx : ℕ) → label_text idx none ≡ anonymous idx
unfolding label_text
label_text-none idx = refl

module _ {F : F64} (H : BinaryHeap (DigitalEvent F) (event_leq F)) where
  -- After `set_label` the net shows its new label, or the anonymous one if that is empty; a net
  -- between the labels so far and the new one shows the anonymous label of the first of these nets;
  -- and every other net shows what it showed.
  pub label-set_label :
      (s : DigitalState H) (net other : DigitalNet) (label : Text)
      → label_or_default H (set_label H s net label) other ≡ (
          if net == other
          then shown label other
          else if leb (length s.labels) other && ltb other net
          then anonymous (length s.labels)
          else label_or_default H s other)
  unfolding set_label label_or_default read_label
  label-set_label s net other label =
      rw (get_elem?-write_label s.labels net other label)
        (ground (arith, label_text-some other label, label_text-anonymous other (length s.labels)))

  -- A net that was given no label, behind the first of those and before the one that is labelled, then
  -- shows the anonymous label of another net and not its own.
  pub set_label_mislabels :
      (s : DigitalState H) (net other : DigitalNet) (label : Text)
      → length s.labels < other
      → other < net
      → (label_or_default H s other ≡ anonymous other)
        × (label_or_default H (set_label H s net label) other ≢ anonymous other)
  unfolding label_or_default read_label
  set_label_mislabels s net other label h k =
      let shows : label_or_default H (set_label H s net label) other ≡ anonymous (length s.labels) =
        ground (arith, label-set_label s net other label) in
      (
        rw (get_elem?-none s.labels other (omega arith)) (label_text-none other),
        λ e. absurd (omega (arith, anonymous_injective (length s.labels) other (sym shows ∙ e))),
      )
