-- ===== src/Lockfile/Examples.antt =====
-- A lockfile with a dependency and a plugin of the same name.
use piperine.Common.{◌≡◌, refl, [], ◌∷◌, none, some, if◌then◌else◌, text_eq}
use piperine.Lockfile.{
  EntryKind, kind_eq, LockEntry, PiperineLock, dependency_entry, new, is_entry, find, get_hash,
  plugin_entry, record_plugin,
}
use piperine.Lockfile.Trust.{record_plugin_replaces}

abbrev trusted : LockEntry
trusted = record (dependency_entry (b'p' ∷ []) (b's' ∷ []) (b'h' ∷ [])) { kind = EntryKind.plugin }

abbrev renewed : LockEntry
renewed = record trusted { hash = b'i' ∷ [] }

abbrev lock : PiperineLock
lock = record { packages = dependency_entry (b'p' ∷ []) (b's' ∷ []) (b'g' ∷ []) ∷ trusted ∷ [] }

looked_up :
    (plugin_entry (record_plugin lock renewed) (b'p' ∷ []) ≡ some renewed)
    × (get_hash (record_plugin lock renewed) (b'p' ∷ []) ≡ some (b'g' ∷ []))
    × (get_hash new (b'p' ∷ []) ≡ none)
unfolding plugin_entry record_plugin find is_entry text_eq kind_eq get_hash new dependency_entry
looked_up = (refl, refl, refl)

record_plugin_replaces_example :
    (plugin_entry (record_plugin lock renewed) (b'p' ∷ [])
      ≡ (if text_eq renewed.name (b'p' ∷ []) then some renewed else plugin_entry lock (b'p' ∷ [])))
    × (get_hash (record_plugin lock renewed) (b'p' ∷ []) ≡ get_hash lock (b'p' ∷ []))
unfolding dependency_entry
record_plugin_replaces_example = record_plugin_replaces lock renewed (b'p' ∷ []) refl
