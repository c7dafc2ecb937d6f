-- ===== src/Release/Accepted.antt =====
-- What parse accepts is a coordinate.
use piperine.Common.{
  ◌≡◌, ◌≢◌, refl, sym, ap, ◌∙◌, inl, inr, false, ◌||◌, [], ◌∷◌, ◌++◌, Text, codes, Bool-cases,
  Option-cases,
}
use piperine.Release.{
  ReleaseRef, Result, ReleaseError, strip_prefix, rsplit_once, split, is_empty, two_segments,
  parse_path, parse_rest, parse,
}
use piperine.Release.Coordinates.{
  coordinate, strip_prefix_sound, rsplit_once_sound, join-split, two_segments_sound, join,
}

pub err-ok {ℓ} : {A : Type ℓ} {e : ReleaseError} {a : A} → Result.err e ≢ Result.ok a
err-ok h = cc

pub ok_injective {ℓ} : {A : Type ℓ} {a b : A} → Result.ok a ≡ Result.ok b → a ≡ b
ok_injective h = cc

-- The parts are those of the text, and none is empty.
abbrev pub Parts : Text → ReleaseRef → Type 0
Parts rest r =
    (rest ≡ (r.owner ++ b'/' ∷ r.repo) ++ b'@' ∷ r.tag)
    × ((is_empty r.owner || (is_empty r.repo || is_empty r.tag)) ≡ false)

split-path : (path owner repo : Text) → split path ≡ owner ∷ repo ∷ [] → path ≡ owner ++ b'/' ∷ repo
unfolding join
split-path path owner repo h = sym (join-split path) ∙ ap join h

parse_path_sound :
    (coord path tag : Text) (r : ReleaseRef)
    → parse_path coord path tag ≡ Result.ok r
    → (r.coord ≡ coord) × Parts (path ++ b'@' ∷ tag) r
unfolding parse_path
parse_path_sound coord path tag r h = elim (Option-cases (two_segments (split path))) [
  | inl n ↦ absurd (err-ok (rw (n, parse_path) at h))
  | inr ((owner, repo), e) ↦ elim (Bool-cases (is_empty owner || (is_empty repo || is_empty tag))) [
    | inl b ↦ absurd (err-ok (rw (e, b, parse_path) at h))
    | inr b ↦
        let made = ok_injective (rw (e, b, parse_path) at h) in
        let segments = two_segments_sound (split path) owner repo e in
        rw (sym made) (refl, (ap (λ x. x ++ b'@' ∷ tag) (split-path path owner repo segments), b))
  ]
]

parse_rest_sound :
    (coord rest : Text) (r : ReleaseRef)
    → parse_rest coord rest ≡ Result.ok r
    → (r.coord ≡ coord) × Parts rest r
unfolding parse_rest
parse_rest_sound coord rest r h = elim (Option-cases (rsplit_once rest)) [
  | inl n ↦ absurd (err-ok (rw (n, parse_rest) at h))
  | inr ((path, tag), e) ↦
      let (c, (parts, full)) = parse_path_sound coord path tag r (rw (e, parse_rest) at h) in
      (c, (rsplit_once_sound rest path tag e ∙ parts, full))
]

-- A text that parse accepts is `github:owner/repo@tag` with the owner, the repository and the tag
-- that it returns, of which none is empty; and the reference keeps the text.
pub parse_sound :
    (coord : Text) (r : ReleaseRef)
    → parse coord ≡ Result.ok r
    → (coord ≡ coordinate r.owner r.repo r.tag)
      × ((is_empty r.owner || (is_empty r.repo || is_empty r.tag)) ≡ false)
      × (r.coord ≡ coord)
unfolding parse
parse_sound coord r h = elim (Option-cases (strip_prefix (codes "github:") coord)) [
  | inl n ↦ absurd (err-ok (rw (n, parse) at h))
  | inr (rest, e) ↦
      let (c, (parts, full)) = parse_rest_sound coord rest r (rw (e, parse) at h) in
      (
        strip_prefix_sound (codes "github:") coord rest e ∙ ap (λ x. codes "github:" ++ x) parts,
        full,
        c,
      )
]
