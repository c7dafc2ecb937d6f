-- ===== src/Plugin/Swap.antt =====
-- Runs after a plugin was trusted: the same artifact passes, a swapped one does not.
use piperine.Common.{◌≡◌, ◌≢◌, refl, Option, none, some, Text, text_eq, if◌then◌else◌}
use piperine.Lockfile.{LockEntry, PiperineLock, plugin_entry, find}
use piperine.Lockfile.Store.{Toml, File, Loaded, load}
use piperine.Plugin.{
  TrustMode, Manifest, PluginError, Trusted, Stdin, decide, empty_lock, decide_and_pin,
  trusted_by_lock, ensure_trusted, release_by_lock, ensure_release_trusted,
}
use piperine.Plugin.FirstUse.{Pinned, err-ok, trusted_by_lock-Pinned, release_by_lock-Pinned}

none-some {ℓ} : {A : Type ℓ} {a : A} → none ≢ some a
none-some h = cc

-- What a file holds.
data Holds (toml : Toml) (file : File) : Type 0 where
  holds_nothing : load toml file ≡ Loaded.missing → Holds toml file
  holds_lock : (lock : PiperineLock) → load toml file ≡ Loaded.loaded lock → Holds toml file
  unreadable : load toml file ≡ Loaded.load_error → Holds toml file

holds : (toml : Toml) (file : File) → Holds toml file
holds toml file = go (load toml file) refl
  where
    go : (l : Loaded) → load toml file ≡ l → Holds toml file
    go Loaded.missing e = Holds.holds_nothing e
    go (Loaded.loaded lock) e = Holds.holds_lock lock e
    go Loaded.load_error e = Holds.unreadable e

nothing_found : (name : Text) (entry : LockEntry) → plugin_entry empty_lock name ≢ some entry
unfolding plugin_entry find
nothing_found name entry h = none-some h

module _ (toml : Toml) (now : Text) where
  ensure_trusted-Pinned :
      (file file' : File) (manifest : Manifest) (source h : Text) (mode : TrustMode) (stdin : Stdin)
      → ensure_trusted toml now file manifest source h mode stdin ≡ Trusted.ok file'
      → Pinned toml file' manifest.name h
  unfolding ensure_trusted
  ensure_trusted-Pinned file file' manifest source h mode stdin p = elim (holds toml file) [
    | Holds.unreadable l ↦ absurd (err-ok (rw (l, ensure_trusted) at p))
    | Holds.holds_nothing l ↦
        trusted_by_lock-Pinned toml now empty_lock file file' manifest source h mode stdin
          (λ entry e. absurd (nothing_found manifest.name entry e)) (rw (l, ensure_trusted) at p)
    | Holds.holds_lock lock l ↦
        trusted_by_lock-Pinned toml now lock file file' manifest source h mode stdin (λ entry e. l)
          (rw (l, ensure_trusted) at p)
  ]

  -- If ensure_release_trusted accepts a release asset, by a prompt, by --verify or because it was
  -- trusted before, the lockfile that it leaves pins the plugin to the hash of that asset.
  pub ensure_release_trusted-Pinned :
      (file file' : File) (manifest : Manifest) (release h triple : Text) (verify : Option Text)
      (mode : TrustMode) (stdin : Stdin)
      → ensure_release_trusted toml now file manifest release h triple verify mode stdin
        ≡ Trusted.ok file'
      → Pinned toml file' manifest.name h
  unfolding ensure_release_trusted
  ensure_release_trusted-Pinned file file' manifest release h triple verify mode stdin p =
      elim (holds toml file) [
        | Holds.unreadable l ↦ absurd (err-ok (rw (l, ensure_release_trusted) at p))
        | Holds.holds_nothing l ↦
            release_by_lock-Pinned toml now empty_lock file file' manifest release h triple verify
              mode stdin (λ entry e. absurd (nothing_found manifest.name entry e))
              (rw (l, ensure_release_trusted) at p)
        | Holds.holds_lock lock l ↦
            release_by_lock-Pinned toml now lock file file' manifest release h triple verify mode
              stdin (λ entry e. l) (rw (l, ensure_release_trusted) at p)
      ]

  Pinned-run :
      (file : File) (manifest : Manifest) (source h h' : Text) (mode : TrustMode) (stdin : Stdin)
      → Pinned toml file manifest.name h
      → ensure_trusted toml now file manifest source h' mode stdin ≡ (
          if text_eq h h'
          then Trusted.ok file
          else Trusted.err (PluginError.hash_mismatch manifest.name))
  unfolding ensure_trusted trusted_by_lock
  Pinned-run file manifest source h h' mode stdin (lock, l, entry, e, c) =
      rw (l, ensure_trusted) (rw (e, trusted_by_lock) (rw c refl))

  -- If a plugin's artifact was accepted, then a later run over the lockfile that was left, in any
  -- mode, accepts an artifact of that plugin with the same hash and leaves the lockfile as it is, and
  -- rejects one with another hash.
  pub trusted_then_swapped :
      (file file' : File) (manifest : Manifest) (source source' h h' : Text)
      (mode mode' : TrustMode) (stdin stdin' : Stdin)
      → ensure_trusted toml now file manifest source h mode stdin ≡ Trusted.ok file'
      → ensure_trusted toml now file' manifest source' h' mode' stdin' ≡ (
          if text_eq h h'
          then Trusted.ok file'
          else Trusted.err (PluginError.hash_mismatch manifest.name))
  trusted_then_swapped file file' manifest source source' h h' mode mode' stdin stdin' p =
      Pinned-run file' manifest source' h h' mode' stdin'
        (ensure_trusted-Pinned file file' manifest source h mode stdin p)

  Pinned-release :
      (file : File) (manifest : Manifest) (release h h' triple : Text) (stdin : Stdin)
      → Pinned toml file manifest.name h
      → ensure_release_trusted toml now file manifest release h' triple none
          TrustMode.reject_untrusted stdin
        ≡ (if text_eq h h'
            then Trusted.ok file
            else Trusted.err (PluginError.untrusted manifest.name))
  unfolding ensure_release_trusted release_by_lock decide_and_pin decide
  Pinned-release file manifest release h h' triple stdin (lock, l, entry, e, c) =
      rw (l, ensure_release_trusted) (rw (e, release_by_lock) (rw c refl))

  -- If a release asset was accepted, then a later run that rejects whatever is untrusted and has no
  -- --verify accepts the asset with that hash, without a change to the lockfile, and no other asset.
  pub release_then_moved :
      (file file' : File) (manifest : Manifest) (release release' h h' triple triple' : Text)
      (verify : Option Text) (mode : TrustMode) (stdin stdin' : Stdin)
      → ensure_release_trusted toml now file manifest release h triple verify mode stdin
        ≡ Trusted.ok file'
      → ensure_release_trusted toml now file' manifest release' h' triple' none
          TrustMode.reject_untrusted stdin'
        ≡ (if text_eq h h'
            then Trusted.ok file'
            else Trusted.err (PluginError.untrusted manifest.name))
  release_then_moved file file' manifest release release' h h' triple triple' verify mode stdin
        stdin' p =
      Pinned-release file' manifest release' h h' triple' stdin'
        (ensure_release_trusted-Pinned file file' manifest release h triple verify mode stdin p)
