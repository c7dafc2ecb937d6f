-- ===== src/Plugin.antt =====
-- Trust on first use: crates/piperine-plugin/src/trust.rs, over the lockfile. Standard input and the
-- clock are arguments; what a prompt prints is left out.
mod FirstUse
mod Swap
mod Examples
use piperine.Common.{
  leb, Bool, true, false, not, ◌&&◌, ◌||◌, List, [], ◌∷◌, Option, none, some, Text, codes, text_eq,
  if◌then◌else◌, ◌==◌,
}
use piperine.Lockfile.{EntryKind, LockEntry, PiperineLock, plugin_entry, record_plugin}
use piperine.Lockfile.Store.{Toml, File, Loaded, load, save}

pub data TrustMode : Type 0 where
  interactive accept_all reject_untrusted : TrustMode

pub record Permissions : Type 0 where
  pub filesystem : List Text
  pub network : Bool
  pub process_spawn : List Text

-- The part of a manifest that a trust decision reads.
pub record Manifest : Type 0 where
  pub name : Text
  pub permissions : Permissions

pub data PluginError : Type 0 where
  untrusted hash_mismatch permissions_denied other : Text → PluginError
  verify_mismatch : Text → Text → PluginError

pub data Trusted : Type 0 where
  ok : File → Trusted
  err : PluginError → Trusted

-- What standard input is and what a line read from it holds.
pub record Stdin : Type 0 where
  pub is_terminal : Bool
  pub read_line : Option Text

-- The white space of Unicode, which `trim` takes off.
unfoldable pub is_white : Text → Bool
is_white [] = true
is_white (c ∷ cs) =
    (c == 32
      || leb 9 c && leb c 13
      || c == 133
      || c == 160
      || c == 5760
      || leb 8192 c && leb c 8202
      || c == 8232
      || c == 8233
      || c == 8239
      || c == 8287
      || c == 12288)
    && is_white cs

unfoldable pub trim_end : Text → Text
trim_end [] = []
trim_end (c ∷ cs) = let rest = trim_end cs in if is_white (c ∷ cs) then [] else c ∷ rest

unfoldable pub trim_start : Text → Text
trim_start [] = []
trim_start (c ∷ cs) = let rest = trim_start cs in if is_white (c ∷ []) then rest else c ∷ cs

-- `matches!(line.trim(), "y" | "Y" | "yes")`
unfoldable pub is_yes : Text → Bool
is_yes line =
    let answer = trim_end (trim_start line) in
    text_eq answer (codes "y") || (text_eq answer (codes "Y") || text_eq answer (codes "yes"))

unfoldable pub prompt : Stdin → Bool
prompt stdin =
    if not stdin.is_terminal
    then false
    else elim stdin.read_line [ none ↦ false | some line ↦ is_yes line ]

unfoldable pub decide : TrustMode → Stdin → Bool
decide TrustMode.accept_all stdin = true
decide TrustMode.reject_untrusted stdin = false
decide TrustMode.interactive stdin = prompt stdin

unfoldable pub is_empty : List Text → Bool
is_empty [] = true
is_empty (t ∷ ts) = false

unfoldable pub is_default : Permissions → Bool
is_default p = is_empty p.filesystem && (not p.network && is_empty p.process_spawn)

-- The error, or none for the consent.
unfoldable pub ensure_permissions_consented : Manifest → TrustMode → Stdin → Option PluginError
ensure_permissions_consented manifest mode stdin =
    let denied = some (PluginError.permissions_denied manifest.name) in
    let approved = decide mode stdin in
    if is_default manifest.permissions then none else if approved then none else denied

-- `unwrap_or_default`
abbrev pub empty_lock : PiperineLock
empty_lock = record { packages = [] }

module _ (toml : Toml) (now : Text) where
  unfoldable pub pinned_entry : Manifest → Text → Text → Option Text → LockEntry
  pinned_entry manifest source content_hash triple = record {
    name = manifest.name;
    source = source;
    hash = content_hash;
    kind = EntryKind.plugin;
    content_hash = some content_hash;
    abi = triple;
    trusted_at = some now;
  }

  unfoldable pub pin : PiperineLock → File → Manifest → Text → Text → Option Text → Trusted
  pin lock file manifest source content_hash triple =
      elim (save toml (record_plugin lock (pinned_entry manifest source content_hash triple))
        file) [
          | none ↦ Trusted.err (PluginError.other manifest.name)
          | some written ↦ Trusted.ok written
        ]

  -- `decide` and `pin` as every path to a new pin has them.
  unfoldable pub decide_and_pin :
      PiperineLock → File → Manifest → Text → Text → Option Text → TrustMode → Stdin → Trusted
  decide_and_pin lock file manifest source content_hash triple mode stdin =
      if not (decide mode stdin)
      then Trusted.err (PluginError.untrusted manifest.name)
      else pin lock file manifest source content_hash triple

  unfoldable pub trusted_by_lock :
      PiperineLock → File → Manifest → Text → Text → TrustMode → Stdin → Trusted
  trusted_by_lock lock file manifest source content_hash mode stdin =
      elim (plugin_entry lock manifest.name) [
        | none ↦ decide_and_pin lock file manifest source content_hash none mode stdin
        | some entry ↦ elim entry.content_hash [
          | none ↦ Trusted.err (PluginError.untrusted manifest.name)
          | some trusted ↦
              if text_eq trusted content_hash
              then Trusted.ok file
              else Trusted.err (PluginError.hash_mismatch manifest.name)
        ]
      ]

  unfoldable pub ensure_trusted : File → Manifest → Text → Text → TrustMode → Stdin → Trusted
  ensure_trusted file manifest source content_hash mode stdin = elim (load toml file) [
    | Loaded.load_error ↦ Trusted.err (PluginError.other manifest.name)
    | Loaded.missing ↦ trusted_by_lock empty_lock file manifest source content_hash mode stdin
    | Loaded.loaded lock ↦ trusted_by_lock lock file manifest source content_hash mode stdin
  ]

  unfoldable pub release_by_lock :
      PiperineLock
      → File
      → Manifest
      → Text
      → Text
      → Text
      → Option Text
      → TrustMode
      → Stdin
      → Trusted
  release_by_lock lock file manifest release content_hash triple verify mode stdin =
      let new_pin =
        decide_and_pin lock file manifest release content_hash (some triple) mode stdin in
      elim verify [
        | some expected ↦
            if not (text_eq expected content_hash)
            then Trusted.err (PluginError.verify_mismatch manifest.name release)
            else pin lock file manifest release content_hash (some triple)
        | none ↦ elim (plugin_entry lock manifest.name) [
          | none ↦ new_pin
          | some entry ↦ elim entry.content_hash [
            | none ↦ new_pin
            | some trusted ↦ if text_eq trusted content_hash then Trusted.ok file else new_pin
          ]
        ]
      ]

  unfoldable pub ensure_release_trusted :
      File → Manifest → Text → Text → Text → Option Text → TrustMode → Stdin → Trusted
  ensure_release_trusted file manifest release content_hash triple verify mode stdin =
      elim (load toml file) [
        | Loaded.load_error ↦ Trusted.err (PluginError.other manifest.name)
        | Loaded.missing ↦
            release_by_lock empty_lock file manifest release content_hash triple verify mode stdin
        | Loaded.loaded lock ↦
            release_by_lock lock file manifest release content_hash triple verify mode stdin
      ]
