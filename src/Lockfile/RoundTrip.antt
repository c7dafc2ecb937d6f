-- ===== src/Lockfile/RoundTrip.antt =====
-- A lockfile that was saved is read back with every entry found as before.
use mathlib.Core.Option
use piperine.Common.{◌≡◌, ◌≢◌, refl, sym, ap, inl, inr, none, some, Text, Bool-cases, Option-cases}
use piperine.Lockfile.{EntryKind, PiperineLock, plugin_entry, get_hash}
use piperine.Lockfile.Store.{
  Content, Toml, File, Loaded, load, save, sort_by_name, find-sort_by_name,
}

none-some {ℓ} : {A : Type ℓ} {a : A} → none ≢ some a
none-some h = cc

written {ℓ} : {A : Type ℓ} {a b : A} → some a ≡ some b → a ≡ b
written h = cc

save-content :
    (toml : Toml) (lock : PiperineLock) (file file' : File)
    → save toml lock file ≡ some file'
    → (text : Text) × (toml.to_string_pretty (record { packages = sort_by_name lock.packages })
        ≡ some text)
      × (file'.content ≡ Content.readable text)
unfolding save
save-content toml lock file file' s =
    elim (Option-cases (toml.to_string_pretty (record { packages = sort_by_name lock.packages }))) [
      | inl n ↦ absurd (none-some (rw (n, save) at s))
      | inr (text, t) ↦ elim (Bool-cases file.writable) [
        | inl w ↦ (text, t, sym (ap (λ f. f.content) (written (rw (t, w, save) at s))))
        | inr w ↦ absurd (none-some (rw (t, w, save) at s))
      ]
    ]

-- If the lock is saved, the file is read back as a lock in which every plugin's entry and every
-- dependency's hash is found as in the lock that was saved.
pub load-save :
    (toml : Toml) (lock : PiperineLock) (file file' : File)
    → save toml lock file ≡ some file'
    → (read : PiperineLock) × (load toml file' ≡ Loaded.loaded read)
      × ((name : Text)
          → (plugin_entry read name ≡ plugin_entry lock name)
            × (get_hash read name ≡ get_hash lock name))
unfolding load plugin_entry get_hash
load-save toml lock file file' s =
    let (text, t, c) = save-content toml lock file file' s in
    let sorted : PiperineLock = record { packages = sort_by_name lock.packages } in
    let parsed : toml.from_str text ≡ some sorted = toml.round_trip sorted text t in
    (
      sorted,
      rw (c, load) (rw parsed refl),
      λ name. (
        find-sort_by_name name EntryKind.plugin lock.packages,
        ap (Option.map (λ p. p.hash)) (find-sort_by_name name EntryKind.dependency lock.packages),
      ),
    )
