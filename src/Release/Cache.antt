-- ===== src/Release/Cache.antt =====
-- What fetch returns is on the disk, under its hash.
use piperine.Common.{
  ◌≡◌, refl, sym, ap, ◌∙◌, ◌⊎◌, inl, inr, Option, none, some, Text, text_eq, text_eq_to,
  text_eq_refl, Bool-cases,
}
use piperine.Release.{
  ReleaseRef, Result, ReleaseError, ReleaseClient, FetchedAsset, Stored, Disk, write, pinned_path,
  store, download, fetch_cached, fetch, select_asset, asset_name,
}
use piperine.Release.Accepted.{err-ok, ok_injective}

Result-cases {ℓ} :
    {A : Type ℓ} (r : Result A)
    → ((e : ReleaseError) × (r ≡ Result.err e)) ⊎ ((a : A) × (r ≡ Result.ok a))
Result-cases (Result.err e) = inl (e, refl)
Result-cases (Result.ok a) = inr (a, refl)

Stored-cases :
    (s : Stored)
    → ((s ≡ Stored.absent) ⊎ (s ≡ Stored.unreadable)) ⊎ ((b : Text) × (s ≡ Stored.readable b))
Stored-cases Stored.absent = inl (inl refl)
Stored-cases Stored.unreadable = inl (inr refl)
Stored-cases (Stored.readable b) = inr (b, refl)

module _ (hash_bytes : Text → Text) (dir : Text) where
  -- The file of an asset holds bytes with the asset's hash, and is named by it.
  abbrev pub Intact : FetchedAsset × Disk → Type 0
  Intact (asset, disk) =
      (bytes : Text) × (disk.files asset.path ≡ Stored.readable bytes)
      × (hash_bytes bytes ≡ asset.content_hash)
      × (asset.path ≡ pinned_path hash_bytes dir asset.content_hash asset.triple)

  store-Intact :
      (disk : Disk) (triple asset bytes : Text) (out : FetchedAsset × Disk)
      → store hash_bytes dir disk triple asset bytes ≡ Result.ok out
      → Intact out
  unfolding store write
  store-Intact disk triple asset bytes out h = elim (Bool-cases disk.writable) [
    | inl w ↦
        let path = pinned_path hash_bytes dir (hash_bytes bytes) triple in
        rw (sym (ok_injective (rw (w, store) at h)))
          (bytes, rw (text_eq_refl path) refl, refl, refl)
    | inr w ↦ absurd (err-ok (rw (w, store) at h))
  ]

  download-Intact :
      (client : ReleaseClient) (disk : Disk) (release : ReleaseRef) (triple : Text)
      (out : FetchedAsset × Disk)
      → download hash_bytes dir client disk release triple ≡ Result.ok out
      → Intact out
  unfolding download
  download-Intact client disk release triple out h =
      elim (Result-cases (client.list_assets release)) [
        | inl (e, l) ↦ absurd (err-ok (rw (l, download) at h))
        | inr (assets, l) ↦ elim (Result-cases (select_asset release assets triple)) [
          | inl (e, s) ↦ absurd (err-ok (rw (l, s, download) at h))
          | inr (asset, s) ↦ elim (Result-cases (client.download_asset release asset)) [
            | inl (e, d) ↦ absurd (err-ok (rw (l, s, d, download) at h))
            | inr (bytes, d) ↦
                store-Intact disk triple asset bytes out (rw (l, s, d, download) at h)
          ]
        ]
      ]

  reused :
      (disk : Disk) (release : ReleaseRef) (got : FetchedAsset) (bytes : Text)
      → hash_bytes bytes ≡ got.content_hash
      → got.path ≡ pinned_path hash_bytes dir got.content_hash got.triple
      → fetch_cached hash_bytes dir disk release got.triple got.content_hash bytes
        ≡ Result.ok (
          record {
            path = got.path;
            content_hash = got.content_hash;
            triple = got.triple;
            asset = asset_name release got.triple;
          },
          disk,
        )
  unfolding fetch_cached
  reused disk release got bytes same path =
      rw (same, fetch_cached) (rw (text_eq_refl got.content_hash) (rw (sym path) refl))

  -- Whatever fetch returns, with a pin or without, from the cache or from the network, the file that
  -- it names is in the cache under the hash that it reports, and holds bytes with that hash.
  pub fetch-Intact :
      (client : ReleaseClient) (disk : Disk) (release : ReleaseRef) (triple : Text)
      (pinned : Option Text) (out : FetchedAsset × Disk)
      → fetch hash_bytes dir client disk release triple pinned ≡ Result.ok out
      → Intact out
  unfolding fetch fetch_cached
  fetch-Intact client disk release triple none out h =
      download-Intact client disk release triple out h
  fetch-Intact client disk release triple (some hash) out h =
      elim (Stored-cases (disk.files (pinned_path hash_bytes dir hash triple))) [
        | inl (inr n) ↦ absurd (err-ok (rw (n, fetch) at h))
        | inl (inl n) ↦ download-Intact client disk release triple out (rw (n, fetch) at h)
        | inr (bytes, b) ↦ elim (Bool-cases (text_eq (hash_bytes bytes) hash)) [
          | inl t ↦ rw (sym (ok_injective (rw (b, t, fetch, fetch_cached) at h))) (
            bytes,
            b,
            refl,
            ap (λ x. pinned_path hash_bytes dir x triple)
                (sym (text_eq_to (hash_bytes bytes) hash t)),
          )
          | inr t ↦ absurd (err-ok (rw (b, t, fetch, fetch_cached) at h))
        ]
      ]

  -- Once an asset was fetched, a fetch for the same target that pins the reported hash, of any
  -- release and whatever the network answers, returns the same file and leaves the disk as it is.
  pub fetch_offline :
      (client client' : ReleaseClient) (disk disk' : Disk) (release release' : ReleaseRef)
      (triple : Text) (pinned : Option Text) (got : FetchedAsset)
      → fetch hash_bytes dir client disk release triple pinned ≡ Result.ok (got, disk')
      → fetch hash_bytes dir client' disk' release' got.triple (some got.content_hash)
        ≡ Result.ok (
          record {
            path = got.path;
            content_hash = got.content_hash;
            triple = got.triple;
            asset = asset_name release' got.triple;
          },
          disk',
        )
  unfolding fetch
  fetch_offline client client' disk disk' release release' triple pinned got h =
      let (bytes, b, same, path) = fetch-Intact client disk release triple pinned (got, disk') h in
      let there : disk'.files (pinned_path hash_bytes dir got.content_hash got.triple)
          ≡ Stored.readable bytes =
        ap disk'.files (sym path) ∙ b in
      rw (there, fetch) (reused disk' release' got bytes same path)
