-- ===== src/Release.antt =====
-- Release coordinates and the binary cache: crates/piperine-project/src/release.rs. The host of the
-- releases, SHA-256 and the file system are parameters.
mod Coordinates
mod Accepted
mod Cache
mod Examples
use piperine.Common.{
  ℕ, Bool, true, false, not, ◌&&◌, ◌||◌, List, [], ◌∷◌, ◌++◌, Option, none, some, Text, codes,
  text_eq, starts_with, if◌then◌else◌, ◌==◌,
}

pub data ReleaseError : Type 0 where
  bad_coordinate no_asset_for_triple fetch_failed : Text → Text → ReleaseError
  io_error : ReleaseError

pub record ReleaseRef : Type 0 where
  pub owner : Text
  pub repo : Text
  pub tag : Text
  pub coord : Text

pub data Result {ℓ} (A : Type ℓ) : Type ℓ where
  ok : A → Result A
  err : ReleaseError → Result A

-- `strip_prefix`, `rsplit_once` and `split` of the standard library.
unfoldable pub strip_prefix : Text → Text → Option Text
strip_prefix [] s = some s
strip_prefix (p ∷ ps) [] = none
strip_prefix (p ∷ ps) (c ∷ cs) = let rest = strip_prefix ps cs in if p == c then rest else none

unfoldable pub rsplit_once : Text → Option (Text × Text)
rsplit_once [] = none
rsplit_once (c ∷ cs) = elim (rsplit_once cs) [
  | some (before, after) ↦ some (c ∷ before, after)
  | none ↦ if c == b'@' then some ([], cs) else none
]

unfoldable pub cons_first : ℕ → List Text → List Text
cons_first c [] = (c ∷ []) ∷ []
cons_first c (s ∷ ss) = (c ∷ s) ∷ ss

unfoldable pub split : Text → List Text
split [] = [] ∷ []
split (c ∷ cs) = let rest = split cs in if c == b'/' then [] ∷ rest else cons_first c rest

unfoldable pub is_empty : Text → Bool
is_empty [] = true
is_empty (c ∷ cs) = false

-- `[owner, repo]`, or another number of segments
unfoldable pub two_segments : List Text → Option (Text × Text)
two_segments (owner ∷ repo ∷ []) = some (owner, repo)
two_segments _ = none

unfoldable pub parse_path : Text → Text → Text → Result ReleaseRef
parse_path coord path tag = elim (two_segments (split path)) [
  | none ↦ Result.err (ReleaseError.bad_coordinate coord (codes "expected exactly `owner/repo`"))
  | some (owner, repo) ↦
      if is_empty owner || (is_empty repo || is_empty tag)
      then Result.err
          (ReleaseError.bad_coordinate coord (codes "`owner`, `repo` and `tag` must be non-empty"))
      else Result.ok (record { owner = owner; repo = repo; tag = tag; coord = coord })
]

-- What follows `github:`.
unfoldable pub parse_rest : Text → Text → Result ReleaseRef
parse_rest coord rest = elim (rsplit_once rest) [
  | none ↦ Result.err (ReleaseError.bad_coordinate coord (codes "missing `@tag`"))
  | some (path, tag) ↦ parse_path coord path tag
]

unfoldable pub parse : Text → Result ReleaseRef
parse coord = elim (strip_prefix (codes "github:") coord) [
  | none ↦
      Result.err
        (ReleaseError.bad_coordinate coord (codes "expected the `github:owner/repo@tag` scheme"))
  | some rest ↦ parse_rest coord rest
]

unfoldable pub api_url : ReleaseRef → Text
api_url r =
    codes "https://api.github.com/repos/"
    ++ r.owner
    ++ codes "/"
    ++ r.repo
    ++ codes "/releases/tags/"
    ++ r.tag

unfoldable pub download_url : ReleaseRef → Text → Text
download_url r asset =
    codes "https://github.com/"
    ++ r.owner
    ++ codes "/"
    ++ r.repo
    ++ codes "/releases/download/"
    ++ r.tag
    ++ codes "/"
    ++ asset

-- `contains` on text
unfoldable pub contains_text : Text → Text → Bool
contains_text [] part = is_empty part
contains_text (c ∷ cs) part = starts_with (c ∷ cs) part || contains_text cs part

unfoldable pub asset_extension : Text → Text
asset_extension triple =
    if contains_text triple (codes "windows")
    then codes "dll"
    else if contains_text triple (codes "apple") || contains_text triple (codes "darwin")
    then codes "dylib"
    else codes "so"

unfoldable pub asset_name : ReleaseRef → Text → Text
asset_name r triple =
    codes "lib" ++ r.repo ++ codes "-" ++ triple ++ codes "." ++ asset_extension triple

unfoldable pub find_asset : Text → List Text → Option Text
find_asset wanted [] = none
find_asset wanted (a ∷ rest_of) =
    let rest = find_asset wanted rest_of in if text_eq a wanted then some a else rest

unfoldable pub select_asset : ReleaseRef → List Text → Text → Result Text
select_asset r assets triple = elim (find_asset (asset_name r triple) assets) [
  | none ↦ Result.err (ReleaseError.no_asset_for_triple triple r.coord)
  | some a ↦ Result.ok a
]

pub record ReleaseClient : Type 0 where
  pub list_assets : ReleaseRef → Result (List Text)
  pub download_asset : ReleaseRef → Text → Result Text

pub record FetchedAsset : Type 0 where
  pub path : Text
  pub content_hash : Text
  pub triple : Text
  pub asset : Text

-- What stands at a path: no file, a file that cannot be read, or bytes.
pub data Stored : Type 0 where
  absent unreadable : Stored
  readable : Text → Stored

-- The files by their paths, and whether the directory can be created and written.
pub record Disk : Type 0 where
  pub files : Text → Stored
  pub writable : Bool

unfoldable pub write : Disk → Text → Text → Disk
write disk path bytes = record disk {
  files = λ q. if text_eq q path then Stored.readable bytes else disk.files q;
}

module _ (hash_bytes : Text → Text) (dir : Text) where
  unfoldable pub pinned_path : Text → Text → Text
  pinned_path content_hash triple =
      let hex : Text = elim (strip_prefix (codes "sha256:") content_hash) [
        | some h ↦ h
        | none ↦ content_hash
      ] in
      dir ++ codes "/" ++ hex ++ codes "." ++ asset_extension triple

  -- The download, hashed and written.
  unfoldable pub store : Disk → Text → Text → Text → Result (FetchedAsset × Disk)
  store disk triple asset bytes =
      let path = pinned_path (hash_bytes bytes) triple in
      if disk.writable
      then Result.ok (
        record { path = path; content_hash = hash_bytes bytes; triple = triple; asset = asset },
        write disk path bytes,
      )
      else Result.err ReleaseError.io_error

  unfoldable pub download : ReleaseClient → Disk → ReleaseRef → Text → Result (FetchedAsset × Disk)
  download client disk release triple = elim (client.list_assets release) [
    | Result.err e ↦ Result.err e
    | Result.ok assets ↦ elim (select_asset release assets triple) [
      | Result.err e ↦ Result.err e
      | Result.ok asset ↦ elim (client.download_asset release asset) [
        | Result.err e ↦ Result.err e
        | Result.ok bytes ↦ store disk triple asset bytes
      ]
    ]
  ]

  unfoldable pub fetch_cached :
      Disk → ReleaseRef → Text → Text → Text → Result (FetchedAsset × Disk)
  fetch_cached disk release triple hash bytes =
      if not (text_eq (hash_bytes bytes) hash)
      then Result.err (ReleaseError.fetch_failed release.coord (codes "corrupt"))
      else Result.ok (
        record {
          path = pinned_path hash triple;
          content_hash = hash_bytes bytes;
          triple = triple;
          asset = asset_name release triple;
        },
        disk,
      )

  unfoldable pub fetch :
      ReleaseClient → Disk → ReleaseRef → Text → Option Text → Result (FetchedAsset × Disk)
  fetch client disk release triple none = download client disk release triple
  fetch client disk release triple (some hash) = elim (disk.files (pinned_path hash triple)) [
    | Stored.readable bytes ↦ fetch_cached disk release triple hash bytes
    | Stored.unreadable ↦ Result.err ReleaseError.io_error
    | Stored.absent ↦ download client disk release triple
  ]
