-- ===== src/Release/Coordinates.antt =====
-- `github:owner/repo@tag` is parsed to its parts, and nothing else is.
use piperine.Common.{
  ℕ, ◌≡◌, ◌≢◌, refl, sym, ap, ◌∙◌, inl, inr, Bool, false, ◌||◌, List, [], ◌∷◌, ◌++◌, none, some,
  Text, codes, ◌==◌, Bool-cases, Option-cases, arith,
}
use piperine.Release.{
  Result, strip_prefix, rsplit_once, split, cons_first, is_empty, two_segments, parse_path,
  parse_rest, parse_rest, parse,
}

abbrev pub coordinate : Text → Text → Text → Text
coordinate owner repo tag = codes "github:" ++ ((owner ++ b'/' ∷ repo) ++ b'@' ∷ tag)

-- `c` occurs in the text.
unfoldable pub mentions : ℕ → Text → Bool
mentions c [] = false
mentions c (d ∷ ds) = d == c || mentions c ds

pub none-some {ℓ} : {A : Type ℓ} {a : A} → none ≢ some a
none-some h = cc

pub some_injective {ℓ} : {A : Type ℓ} {a b : A} → some a ≡ some b → a ≡ b
some_injective h = cc

same_parts : {p q : Text × Text} → some p ≡ some q → (p.0 ≡ q.0) × (p.1 ≡ q.1)
same_parts h = let e = some_injective h in (ap (λ p. p.0) e, ap (λ p. p.1) e)

strip_prefix-append : (p s : Text) → strip_prefix p (p ++ s) ≡ some s
unfolding strip_prefix
strip_prefix-append [] s = refl
strip_prefix-append (c ∷ cs) s = ground (arith, strip_prefix-append cs s)

pub strip_prefix_sound : (p s r : Text) → strip_prefix p s ≡ some r → s ≡ p ++ r
unfolding strip_prefix
strip_prefix_sound [] s r h = some_injective h
strip_prefix_sound (p ∷ ps) [] r h = cc
strip_prefix_sound (p ∷ ps) (c ∷ cs) r h = elim (Bool-cases (p == c)) [
  | inl e ↦
      let head : c ≡ p = ground arith in
      let tail : cs ≡ ps ++ r = strip_prefix_sound ps cs r (rw (e, strip_prefix) at h) in cc
  | inr e ↦ absurd (none-some (rw (e, strip_prefix) at h))
]

rsplit_once-unmentioned : (s : Text) → mentions b'@' s ≡ false → rsplit_once s ≡ none
unfolding mentions rsplit_once
rsplit_once-unmentioned [] h = refl
rsplit_once-unmentioned (c ∷ cs) h =
    let other : (c == b'@') ≡ false = ground arith in
    rw (rsplit_once-unmentioned cs (ground arith)) (rw other refl)

rsplit_once-append :
    (a b : Text) → mentions b'@' b ≡ false → rsplit_once (a ++ b'@' ∷ b) ≡ some (a, b)
unfolding rsplit_once
rsplit_once-append [] b h = rw (rsplit_once-unmentioned b h) refl
rsplit_once-append (c ∷ cs) b h = rw (rsplit_once-append cs b h) refl

pub rsplit_once_sound : (s a b : Text) → rsplit_once s ≡ some (a, b) → s ≡ a ++ b'@' ∷ b
unfolding rsplit_once
rsplit_once_sound [] a b h = absurd (none-some h)
rsplit_once_sound (c ∷ cs) a b h = elim (Option-cases (rsplit_once cs)) [
  | inl n ↦ elim (Bool-cases (c == b'@')) [
    | inl e ↦
        let (empty, after) = same_parts (rw (n, e, rsplit_once) at h) in
        let head : c ≡ b'@' = ground arith in cc
    | inr e ↦ absurd (none-some (rw (n, e, rsplit_once) at h))
  ]
  | inr ((x, y), e) ↦
      let (before, after) = same_parts (rw (e, rsplit_once) at h) in
      let tail : cs ≡ x ++ b'@' ∷ y = rsplit_once_sound cs x y e in cc
]

split-unmentioned : (s : Text) → mentions b'/' s ≡ false → split s ≡ s ∷ []
unfolding mentions split cons_first
split-unmentioned [] h = refl
split-unmentioned (c ∷ cs) h =
    let other : (c == b'/') ≡ false = ground arith in
    rw (split-unmentioned cs (ground arith)) (rw other refl)

split-append :
    (a b : Text)
    → mentions b'/' a ≡ false
    → mentions b'/' b ≡ false
    → split (a ++ b'/' ∷ b) ≡ a ∷ b ∷ []
unfolding mentions split cons_first
split-append [] b h k = rw (split-unmentioned b k) refl
split-append (c ∷ cs) b h k =
    let other : (c == b'/') ≡ false = ground arith in
    rw (split-append cs b (ground arith) k) (rw other refl)

unfoldable pub join : List Text → Text
join [] = []
join (s ∷ []) = s
join (s ∷ t ∷ ss) = s ++ b'/' ∷ join (t ∷ ss)

join-cons_first : (c : ℕ) (ss : List Text) → join (cons_first c ss) ≡ c ∷ join ss
unfolding join cons_first
join-cons_first c [] = refl
join-cons_first c (s ∷ []) = refl
join-cons_first c (s ∷ t ∷ ss) = refl

split_nonempty : (s : Text) → (t : Text) × (ss : List Text) × (split s ≡ t ∷ ss)
unfolding split cons_first
split_nonempty [] = ([], [], refl)
split_nonempty (c ∷ cs) =
    let (t, ss, e) = split_nonempty cs in
    elim (Bool-cases (c == b'/')) [
      | inl h ↦ ([], t ∷ ss, rw (h, e) refl)
      | inr h ↦ (c ∷ t, ss, rw (h, e) refl)
    ]

pub join-split : (s : Text) → join (split s) ≡ s
unfolding join split
join-split [] = refl
join-split (c ∷ cs) =
    let (t, ss, e) = split_nonempty cs in
    elim (Bool-cases (c == b'/')) [
      | inl h ↦
          let head : b'/' ≡ c = ground arith in
          let rest : join (t ∷ ss) ≡ cs = ap join (sym e) ∙ join-split cs in
          rw (h, e) (ap (λ x. b'/' ∷ x) rest ∙ ap (λ d. d ∷ cs) head)
      | inr h ↦ rw h (join-cons_first c (split cs) ∙ ap (λ x. c ∷ x) (join-split cs))
    ]

pub two_segments_sound :
    (ss : List Text) (a b : Text) → two_segments ss ≡ some (a, b) → ss ≡ a ∷ b ∷ []
unfolding two_segments
two_segments_sound [] a b h = cc
two_segments_sound (s ∷ []) a b h = cc
two_segments_sound (s ∷ t ∷ []) a b h = cc
two_segments_sound (s ∷ t ∷ u ∷ ss) a b h = cc

parsed-prefix :
    (coord rest : Text)
    → strip_prefix (codes "github:") coord ≡ some rest
    → parse coord ≡ parse_rest coord rest
unfolding parse
parsed-prefix coord rest h = rw (h, parse) refl

parsed-tag :
    (coord rest path tag : Text)
    → rsplit_once rest ≡ some (path, tag)
    → parse_rest coord rest ≡ parse_path coord path tag
unfolding parse_rest
parsed-tag coord rest path tag h = rw (h, parse_rest) refl

parsed-path :
    (coord path tag owner repo : Text)
    → split path ≡ owner ∷ repo ∷ []
    → is_empty owner ≡ false
    → is_empty repo ≡ false
    → is_empty tag ≡ false
    → parse_path coord path tag
      ≡ Result.ok (record { owner = owner; repo = repo; tag = tag; coord = coord })
unfolding parse_path two_segments
parsed-path coord path tag owner repo h a b c = rw (h, parse_path) (rw (a, b, c) refl)

-- A coordinate `github:owner/repo@tag` whose owner and repository are not empty and have no `/`, and
-- whose tag is not empty and has no `@`, is parsed to these three and keeps its text.
pub parse-coordinate :
    (owner repo tag : Text)
    → is_empty owner ≡ false
    → is_empty repo ≡ false
    → is_empty tag ≡ false
    → mentions b'/' owner ≡ false
    → mentions b'/' repo ≡ false
    → mentions b'@' tag ≡ false
    → parse (coordinate owner repo tag)
      ≡ Result.ok
          (record { owner = owner; repo = repo; tag = tag; coord = coordinate owner repo tag })
unfolding parse parse_path two_segments
parse-coordinate owner repo tag a b c d e f =
    let whole : Text = coordinate owner repo tag in
    let path : Text = owner ++ b'/' ∷ repo in
    parsed-prefix whole (path ++ b'@' ∷ tag)
      (strip_prefix-append (codes "github:") (path ++ b'@' ∷ tag))
    ∙ parsed-tag whole (path ++ b'@' ∷ tag) path tag (rsplit_once-append path tag f)
    ∙ parsed-path whole path tag owner repo (split-append owner repo d e) a b c
