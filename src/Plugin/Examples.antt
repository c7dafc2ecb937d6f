-- ===== src/Plugin/Examples.antt =====
-- A plugin that is trusted and then replaced, over a file format with lengths in front of texts.
use piperine.Common.{
  ℕ, zero, suc, ◌≡◌, refl, subst, ap, true, false, List, [], ◌∷◌, ◌++◌, Option, none, some, Text,
  codes, text_eq, length,
}
use piperine.Lockfile.{
  EntryKind, LockEntry, PiperineLock, plugin_entry, record_plugin, find, get_hash,
}
use piperine.Lockfile.Store.{Content, Toml, File, Loaded, load, save, sort_by_name, insert_by_name}
use piperine.Lockfile.RoundTrip.{load-save}
use piperine.Plugin.{
  TrustMode, Manifest, PluginError, Trusted, Stdin, decide, pinned_entry, pin, decide_and_pin,
  trusted_by_lock, ensure_trusted, release_by_lock, ensure_release_trusted, prompt, is_yes,
  trim_end, trim_start, is_white,
}
use piperine.Plugin.FirstUse.{Pinned}
use piperine.Plugin.Swap.{ensure_release_trusted-Pinned, trusted_then_swapped, release_then_moved}

abbrev take : ℕ → Text → Text
take zero xs = []
take (suc n) [] = []
take (suc n) (x ∷ xs) = x ∷ take n xs

abbrev drop : ℕ → Text → Text
drop zero xs = xs
drop (suc n) [] = []
drop (suc n) (x ∷ xs) = drop n xs

take-append : (t rest : Text) → take (length t) (t ++ rest) ≡ t
take-append [] rest = refl
take-append (c ∷ cs) rest = ap (λ x. c ∷ x) (take-append cs rest)

drop-append : (t rest : Text) → drop (length t) (t ++ rest) ≡ rest
drop-append [] rest = refl
drop-append (c ∷ cs) rest = drop-append cs rest

put : Text → Text → Text
put t rest = length t ∷ (t ++ rest)

get : Text → Text × Text
get [] = ([], [])
get (n ∷ xs) = (take n xs, drop n xs)

get-put : (t rest : Text) → get (put t rest) ≡ (t, rest)
unfolding get put
get-put t rest = rw (take-append t rest, drop-append t rest) refl

put_option : Option Text → Text → Text
put_option none rest = 0 ∷ rest
put_option (some t) rest = 1 ∷ put t rest

get_option : Text → Option Text × Text
get_option [] = (none, [])
get_option (zero ∷ xs) = (none, xs)
get_option (suc n ∷ xs) = let (t, rest) = get xs in (some t, rest)

get_option-put_option : (o : Option Text) (rest : Text) → get_option (put_option o rest) ≡ (o, rest)
unfolding get_option put_option
get_option-put_option none rest = refl
get_option-put_option (some t) rest = rw (get-put t rest) refl

put_kind : EntryKind → Text → Text
put_kind EntryKind.dependency rest = 0 ∷ rest
put_kind EntryKind.plugin rest = 1 ∷ rest

get_kind : Text → EntryKind × Text
get_kind [] = (EntryKind.dependency, [])
get_kind (zero ∷ xs) = (EntryKind.dependency, xs)
get_kind (suc n ∷ xs) = (EntryKind.plugin, xs)

get_kind-put_kind : (k : EntryKind) (rest : Text) → get_kind (put_kind k rest) ≡ (k, rest)
unfolding get_kind put_kind
get_kind-put_kind EntryKind.dependency rest = refl
get_kind-put_kind EntryKind.plugin rest = refl

put_entry : LockEntry → Text → Text
put_entry e rest = put e.name (
    put e.source (
      put e.hash (
        put_kind e.kind
          (put_option e.content_hash (put_option e.abi (put_option e.trusted_at rest))))))

get_entry : Text → LockEntry × Text
get_entry xs =
    let (name, a) = get xs in
    let (source, b) = get a in
    let (hash, c) = get b in
    let (kind, d) = get_kind c in
    let (content_hash, e) = get_option d in
    let (abi, f) = get_option e in
    let (trusted_at, g) = get_option f in
    (
      record {
        name = name;
        source = source;
        hash = hash;
        kind = kind;
        content_hash = content_hash;
        abi = abi;
        trusted_at = trusted_at;
      },
      g,
    )

get_entry-put_entry : (e : LockEntry) (rest : Text) → get_entry (put_entry e rest) ≡ (e, rest)
unfolding get_entry put_entry
get_entry-put_entry e rest = rw (get-put e.name _) (
    rw (get-put e.source _) (
      rw (get-put e.hash _) (
        rw (get_kind-put_kind e.kind _) (
          rw (get_option-put_option e.content_hash _) (
            rw (get_option-put_option e.abi _)
              (rw (get_option-put_option e.trusted_at rest) refl))))))

put_entries : List LockEntry → Text
put_entries [] = []
put_entries (e ∷ es) = put_entry e (put_entries es)

get_entries : ℕ → Text → List LockEntry
get_entries zero xs = []
get_entries (suc n) xs = let (e, rest) = get_entry xs in e ∷ get_entries n rest

get_entries-put_entries : (es : List LockEntry) → get_entries (length es) (put_entries es) ≡ es
unfolding get_entries put_entries
get_entries-put_entries [] = refl
get_entries-put_entries (e ∷ es) =
    rw (get_entry-put_entry e (put_entries es)) (ap (λ r. e ∷ r) (get_entries-put_entries es))

from_text : Text → Option PiperineLock
from_text [] = none
from_text (n ∷ xs) = some (record { packages = get_entries n xs })

to_text : PiperineLock → Text
to_text lock = length lock.packages ∷ put_entries lock.packages

from_text-to_text : (lock : PiperineLock) → from_text (to_text lock) ≡ some lock
unfolding from_text to_text
from_text-to_text lock =
    ap (λ es. some (record { packages = es })) (get_entries-put_entries lock.packages)

printed-from_text :
    (lock : PiperineLock) (text : Text)
    → some (to_text lock) ≡ some text
    → from_text text ≡ some lock
printed-from_text lock text e =
    let same : to_text lock ≡ text = cc in
    subst (λ t. from_text t ≡ some lock) same (from_text-to_text lock)

abbrev plain_format : Toml
plain_format = record {
  from_str = from_text;
  to_string_pretty = λ lock. some (to_text lock);
  round_trip = printed-from_text;
}

abbrev acme : Manifest
acme = record {
  name = codes "acme";
  permissions = record { filesystem = []; network = false; process_spawn = [] };
}

abbrev no_file : File
no_file = record { content = Content.missing; writable = true }

abbrev keyboard : Stdin
keyboard = record { is_terminal = true; read_line = some (codes " yes ") }

abbrev noon : Text
noon = codes "noon"

abbrev recorded : Option Text → LockEntry
recorded triple = record {
  name = codes "acme";
  source = codes "here";
  hash = codes "h1";
  kind = EntryKind.plugin;
  content_hash = some (codes "h1");
  abi = triple;
  trusted_at = some noon;
}

abbrev file_with : LockEntry → File
file_with e = record {
  content = Content.readable (to_text (record { packages = e ∷ [] }));
  writable = true;
}

first_run :
    ensure_trusted plain_format noon no_file acme
      (codes "here")
      (codes "h1")
      TrustMode.interactive
      keyboard
    ≡ Trusted.ok (file_with (recorded none))
unfolding ensure_trusted trusted_by_lock load plugin_entry find decide_and_pin decide prompt is_yes
    trim_end trim_start is_white text_eq pin pinned_entry save record_plugin sort_by_name
    insert_by_name
first_run = refl

-- An artifact with another hash.
trusted_then_swapped_example :
    ensure_trusted plain_format noon
      (file_with (recorded none))
      acme
      (codes "there")
      (codes "h2")
      TrustMode.accept_all
      keyboard
    ≡ Trusted.err (PluginError.hash_mismatch (codes "acme"))
unfolding text_eq
trusted_then_swapped_example =
    trusted_then_swapped plain_format noon no_file (file_with (recorded none)) acme (codes "here")
      (codes "there") (codes "h1") (codes "h2") TrustMode.interactive TrustMode.accept_all keyboard
      keyboard first_run

release_run :
    ensure_release_trusted plain_format noon no_file acme
      (codes "here")
      (codes "h1")
      (codes "linux")
      (some (codes "h1"))
      TrustMode.reject_untrusted
      keyboard
    ≡ Trusted.ok (file_with (recorded (some (codes "linux"))))
unfolding ensure_release_trusted release_by_lock load text_eq pin pinned_entry save record_plugin
    sort_by_name insert_by_name
release_run = refl

ensure_release_trusted-Pinned_example :
    Pinned plain_format (file_with (recorded (some (codes "linux")))) (codes "acme") (codes "h1")
ensure_release_trusted-Pinned_example =
    ensure_release_trusted-Pinned plain_format noon no_file
      (file_with (recorded (some (codes "linux")))) acme (codes "here") (codes "h1") (codes "linux")
      (some (codes "h1")) TrustMode.reject_untrusted keyboard release_run

release_then_moved_example :
    ensure_release_trusted plain_format noon
      (file_with (recorded (some (codes "linux"))))
      acme
      (codes "here")
      (codes "h2")
      (codes "linux")
      none
      TrustMode.reject_untrusted
      keyboard
    ≡ Trusted.err (PluginError.untrusted (codes "acme"))
unfolding text_eq
release_then_moved_example =
    release_then_moved plain_format noon no_file (file_with (recorded (some (codes "linux")))) acme
      (codes "here") (codes "here") (codes "h1") (codes "h2") (codes "linux") (codes "linux")
      (some (codes "h1")) TrustMode.reject_untrusted keyboard keyboard release_run

load-save_example :
    (read : PiperineLock) × (load plain_format (file_with (recorded none)) ≡ Loaded.loaded read)
    × ((name : Text)
        → (plugin_entry read name ≡ plugin_entry (record { packages = recorded none ∷ [] }) name)
          × (get_hash read name ≡ get_hash (record { packages = recorded none ∷ [] }) name))
unfolding save sort_by_name insert_by_name
load-save_example =
    load-save plain_format (record { packages = recorded none ∷ [] }) no_file
      (file_with (recorded none)) refl
