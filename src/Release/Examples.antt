-- ===== src/Release/Examples.antt =====
-- The release `github:acme/bjt@v1`, fetched twice; the second time the network is down.
use piperine.Common.{
  ◌≡◌, refl, true, false, [], ◌∷◌, ◌++◌, none, some, Text, codes, text_eq, starts_with,
  if◌then◌else◌, ◌||◌,
}
use piperine.Release.{
  ReleaseRef, Result, ReleaseError, ReleaseClient, FetchedAsset, Stored, Disk, parse, parse_rest,
  parse_path, strip_prefix, rsplit_once, split, cons_first, two_segments, is_empty, asset_name,
  asset_extension, contains_text, find_asset, select_asset, pinned_path, write, store, download,
  fetch,
}
use piperine.Release.Coordinates.{coordinate, mentions, parse-coordinate}
use piperine.Release.Accepted.{parse_sound}
use piperine.Release.Cache.{Intact, fetch-Intact, fetch_offline}

abbrev bjt : ReleaseRef
bjt = record {
  owner = codes "acme";
  repo = codes "bjt";
  tag = codes "v1";
  coord = codes "github:acme/bjt@v1";
}

parse-coordinate_example :
    parse (coordinate (codes "acme") (codes "bjt") (codes "v1")) ≡ Result.ok bjt
unfolding is_empty mentions
parse-coordinate_example =
    parse-coordinate (codes "acme") (codes "bjt") (codes "v1") refl refl refl refl refl refl

parse_sound_example :
    (codes "github:acme/bjt@v1" ≡ coordinate (codes "acme") (codes "bjt") (codes "v1"))
    × ((is_empty (codes "acme") || (is_empty (codes "bjt") || is_empty (codes "v1"))) ≡ false)
    × (codes "github:acme/bjt@v1" ≡ codes "github:acme/bjt@v1")
unfolding parse parse_rest parse_path strip_prefix rsplit_once split cons_first two_segments
    is_empty
parse_sound_example = parse_sound (codes "github:acme/bjt@v1") bjt refl

abbrev hash : Text → Text
hash bytes = codes "sha256:" ++ bytes

abbrev online : ReleaseClient
online = record {
  list_assets = λ r. Result.ok (codes "README" ∷ codes "libbjt-linux.so" ∷ []);
  download_asset = λ r asset. Result.ok (codes "0f");
}

abbrev offline : ReleaseClient
offline = record {
  list_assets = λ r. Result.err (ReleaseError.fetch_failed r.coord (codes "offline"));
  download_asset = λ r asset. Result.err (ReleaseError.fetch_failed r.coord (codes "offline"));
}

abbrev empty_disk : Disk
empty_disk = record { files = λ path. Stored.absent; writable = true }

abbrev got : FetchedAsset
got = record {
  path = codes "cache/0f.so";
  content_hash = codes "sha256:0f";
  triple = codes "linux";
  asset = codes "libbjt-linux.so";
}

abbrev filled : Disk
filled = record {
  files =
      λ q. if text_eq q (codes "cache/0f.so") then Stored.readable (codes "0f") else Stored.absent;
  writable = true;
}

first_fetch :
    fetch hash (codes "cache") online empty_disk bjt (codes "linux") none ≡ Result.ok (got, filled)
unfolding fetch download select_asset find_asset asset_name asset_extension contains_text
    starts_with is_empty text_eq store write pinned_path strip_prefix
first_fetch = refl

fetch-Intact_example : Intact hash (codes "cache") (got, filled)
fetch-Intact_example =
    fetch-Intact hash (codes "cache") online empty_disk bjt (codes "linux") none (got, filled)
      first_fetch

fetch_offline_example :
    fetch hash (codes "cache") offline filled bjt (codes "linux") (some (codes "sha256:0f"))
    ≡ Result.ok (got, filled)
unfolding asset_name asset_extension contains_text starts_with is_empty
fetch_offline_example =
    fetch_offline hash (codes "cache") online offline empty_disk filled bjt bjt (codes "linux") none
      got first_fetch
