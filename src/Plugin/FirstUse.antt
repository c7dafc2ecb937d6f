-- ===== src/Plugin/FirstUse.antt =====
-- What an accepted plugin leaves in the lockfile, and what later runs make of it.
use piperine.Common.{
  ◌≡◌, ◌≢◌, refl, sym, ap, ◌∙◌, inl, inr, true, Option, none, some, Text, text_eq, text_eq_to,
  text_eq_refl, Bool-cases, Option-cases,
}
use piperine.Lockfile.{LockEntry, PiperineLock, plugin_entry, record_plugin}
use piperine.Lockfile.RoundTrip.{load-save}
use piperine.Lockfile.Store.{Toml, File, Loaded, load, save}
use piperine.Lockfile.Trust.{record_plugin_replaces}
use piperine.Plugin.{
  TrustMode, Manifest, PluginError, Trusted, Stdin, decide, pinned_entry, pin, decide_and_pin,
  trusted_by_lock, release_by_lock,
}

-- The lockfile pins the plugin `name` to the hash `h`.
abbrev pub Pinned : Toml → File → Text → Text → Type 0
Pinned toml file name h =
    (lock : PiperineLock) × (load toml file ≡ Loaded.loaded lock)
    × (entry : LockEntry) × (plugin_entry lock name ≡ some entry)
    × (entry.content_hash ≡ some h)

pub err-ok : {e : PluginError} {f : File} → Trusted.err e ≢ Trusted.ok f
err-ok h = cc

pub accepted : {f g : File} → Trusted.ok f ≡ Trusted.ok g → f ≡ g
accepted h = cc

module _ (toml : Toml) (now : Text) where
  pin-Pinned :
      (lock : PiperineLock) (file file' : File) (manifest : Manifest) (source h : Text)
      (triple : Option Text)
      → pin toml now lock file manifest source h triple ≡ Trusted.ok file'
      → Pinned toml file' manifest.name h
  unfolding pin pinned_entry
  pin-Pinned lock file file' manifest source h triple p =
      let entry = pinned_entry toml now manifest source h triple in
      elim (Option-cases (save toml (record_plugin lock entry) file)) [
        | inl n ↦ absurd (err-ok (rw (n, pin) at p))
        | inr (f, s) ↦
            let same : f ≡ file' = accepted (rw (s, pin) at p) in
            let (read, l, finds) = load-save toml (record_plugin lock entry) file f s in
            let (found, hash) = finds manifest.name in
            let (served, others) = record_plugin_replaces lock entry manifest.name refl in
            rw (sym same)
              (read, l, entry, found ∙ served ∙ rw (text_eq_refl manifest.name) refl, refl)
      ]

  decide_and_pin-Pinned :
      (lock : PiperineLock) (file file' : File) (manifest : Manifest) (source h : Text)
      (triple : Option Text) (mode : TrustMode) (stdin : Stdin)
      → decide_and_pin toml now lock file manifest source h triple mode stdin ≡ Trusted.ok file'
      → Pinned toml file' manifest.name h
  unfolding decide_and_pin
  decide_and_pin-Pinned lock file file' manifest source h triple mode stdin p =
      elim (Bool-cases (decide mode stdin)) [
        | inl d ↦ pin-Pinned lock file file' manifest source h triple (rw (d, decide_and_pin) at p)
        | inr d ↦ absurd (err-ok (rw (d, decide_and_pin) at p))
      ]

  -- An entry that was found comes from the file.
  abbrev FromFile : PiperineLock → File → Manifest → Type 0
  FromFile lock file manifest =
      (entry : LockEntry)
      → plugin_entry lock manifest.name ≡ some entry
      → load toml file ≡ Loaded.loaded lock

  -- The hash of an entry is the one at hand, and the run is accepted as it is.
  matching-Pinned :
      (lock : PiperineLock) (file : File) (manifest : Manifest) (h trusted : Text)
      (entry : LockEntry)
      → FromFile lock file manifest
      → plugin_entry lock manifest.name ≡ some entry
      → entry.content_hash ≡ some trusted
      → text_eq trusted h ≡ true
      → Pinned toml file manifest.name h
  matching-Pinned lock file manifest h trusted entry from e c t =
      (lock, from entry e, entry, e, c ∙ ap some (text_eq_to trusted h t))

  pub trusted_by_lock-Pinned :
      (lock : PiperineLock) (file file' : File) (manifest : Manifest) (source h : Text)
      (mode : TrustMode) (stdin : Stdin)
      → FromFile lock file manifest
      → trusted_by_lock toml now lock file manifest source h mode stdin ≡ Trusted.ok file'
      → Pinned toml file' manifest.name h
  unfolding trusted_by_lock
  trusted_by_lock-Pinned lock file file' manifest source h mode stdin from p =
      elim (Option-cases (plugin_entry lock manifest.name)) [
        | inl n ↦
            decide_and_pin-Pinned lock file file' manifest source h none mode stdin
              (rw (n, trusted_by_lock) at p)
        | inr (entry, e) ↦ elim (Option-cases entry.content_hash) [
          | inl n ↦ absurd (err-ok (rw (e, n, trusted_by_lock) at p))
          | inr (trusted, c) ↦ elim (Bool-cases (text_eq trusted h)) [
            | inl t ↦
                rw (sym (accepted (rw (e, c, t, trusted_by_lock) at p)))
                  (matching-Pinned lock file manifest h trusted entry from e c t)
            | inr t ↦ absurd (err-ok (rw (e, c, t, trusted_by_lock) at p))
          ]
        ]
      ]

  pub release_by_lock-Pinned :
      (lock : PiperineLock) (file file' : File) (manifest : Manifest) (release h triple : Text)
      (verify : Option Text) (mode : TrustMode) (stdin : Stdin)
      → FromFile lock file manifest
      → release_by_lock toml now lock file manifest release h triple verify mode stdin
        ≡ Trusted.ok file'
      → Pinned toml file' manifest.name h
  unfolding release_by_lock
  release_by_lock-Pinned lock file file' manifest release h triple (some v) mode stdin from p =
      elim (Bool-cases (text_eq v h)) [
        | inl t ↦
            pin-Pinned lock file file' manifest release h (some triple)
              (rw (t, release_by_lock) at p)
        | inr t ↦ absurd (err-ok (rw (t, release_by_lock) at p))
      ]
  release_by_lock-Pinned lock file file' manifest release h triple none mode stdin from p =
      let fresh =
        decide_and_pin-Pinned lock file file' manifest release h (some triple) mode stdin in
      elim (Option-cases (plugin_entry lock manifest.name)) [
        | inl n ↦ fresh (rw (n, release_by_lock) at p)
        | inr (entry, e) ↦ elim (Option-cases entry.content_hash) [
          | inl n ↦ fresh (rw (e, n, release_by_lock) at p)
          | inr (trusted, c) ↦ elim (Bool-cases (text_eq trusted h)) [
            | inl t ↦
                rw (sym (accepted (rw (e, c, t, release_by_lock) at p)))
                  (matching-Pinned lock file manifest h trusted entry from e c t)
            | inr t ↦ fresh (rw (e, c, t, release_by_lock) at p)
          ]
        ]
      ]
