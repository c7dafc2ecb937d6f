-- ===== src/Lockfile.antt =====
-- `PiperineLock` of crates/piperine-project/src/lockfile.rs, in memory: the locked dependencies and the
-- trusted plugins. Reading and writing the file is left to the program.
pub mod Store
pub mod RoundTrip
pub mod Trust
mod Examples
use mathlib.Core.Option
use piperine.Common.{
  ◌==◌, ◌&&◌, not, Bool, true, false, List, [], ◌∷◌, ◌++◌, Option, none, some, if◌then◌else◌,
  retain, Text, text_eq,
}

pub data EntryKind : Type 0 where
  dependency plugin : EntryKind

unfoldable pub kind_eq : EntryKind → EntryKind → Bool
kind_eq dependency dependency = true
kind_eq dependency plugin = false
kind_eq plugin dependency = false
kind_eq plugin plugin = true

pub record LockEntry : Type 0 where
  pub name : Text
  pub source : Text
  pub hash : Text
  pub kind : EntryKind
  pub content_hash : Option Text
  pub abi : Option Text
  pub trusted_at : Option Text

unfoldable pub dependency_entry : Text → Text → Text → LockEntry
dependency_entry name source hash = record {
  name = name;
  source = source;
  hash = hash;
  kind = EntryKind.dependency;
  content_hash = none;
  abi = none;
  trusted_at = none;
}

pub record PiperineLock : Type 0 where
  pub packages : List LockEntry

unfoldable pub new : PiperineLock
new = record { packages = [] }

-- `p.name == name && p.kind == kind`
unfoldable pub is_entry : Text → EntryKind → LockEntry → Bool
is_entry name kind p = text_eq p.name name && kind_eq p.kind kind

-- `iter().find(test)`
unfoldable pub find : (LockEntry → Bool) → List LockEntry → Option LockEntry
find test [] = none
find test (p ∷ ps) = let rest = find test ps in if test p then some p else rest

unfoldable pub get_hash : PiperineLock → Text → Option Text
get_hash lock name =
    Option.map (λ p. p.hash) (find (is_entry name EntryKind.dependency) lock.packages)

unfoldable pub plugin_entry : PiperineLock → Text → Option LockEntry
plugin_entry lock name = find (is_entry name EntryKind.plugin) lock.packages

unfoldable pub record_plugin : PiperineLock → LockEntry → PiperineLock
record_plugin lock entry = record {
  packages =
      retain (λ p. not (kind_eq p.kind EntryKind.plugin && text_eq p.name entry.name)) lock.packages
      ++ entry ∷ [];
}
