-- ===== src/Lockfile/Store.antt =====
-- Reading and writing the lockfile: crates/piperine-project/src/lockfile.rs. The TOML library is a
-- parameter; the file is its contents, if it exists.
use piperine.Common.{
  ◌≡◌, refl, sym, ◌∙◌, ap, Bool, true, false, inl, inr, List, [], ◌∷◌, Option, none, some, Text,
  text_eq_to, if◌then◌else◌, ltb, ◌==◌, Bool-cases, arith,
}
use piperine.Lockfile.{EntryKind, LockEntry, PiperineLock, is_entry, find}

-- The TOML library: what it prints, it parses to the same value.
pub record Toml : Type 0 where
  pub from_str : Text → Option PiperineLock
  pub to_string_pretty : PiperineLock → Option Text
  pub round_trip :
      (lock : PiperineLock) (text : Text)
      → to_string_pretty lock ≡ some text
      → from_str text ≡ some lock

-- What stands at the path: nothing, something that cannot be read as text, or a text.
pub data Content : Type 0 where
  missing unreadable : Content
  readable : Text → Content

-- A file, and whether it can be written.
pub record File : Type 0 where
  pub content : Content
  pub writable : Bool

-- `a.name.cmp(&b.name)` is not Greater
unfoldable pub text_leq : Text → Text → Bool
text_leq [] ds = true
text_leq (c ∷ cs) [] = false
text_leq (c ∷ cs) (d ∷ ds) =
    let rest = text_leq cs ds in if ltb c d then true else if c == d then rest else false

-- The stable sort of the library, by name.
unfoldable pub insert_by_name : LockEntry → List LockEntry → List LockEntry
insert_by_name p [] = p ∷ []
insert_by_name p (q ∷ qs) =
    let rest = insert_by_name p qs in if text_leq p.name q.name then p ∷ q ∷ qs else q ∷ rest

unfoldable pub sort_by_name : List LockEntry → List LockEntry
sort_by_name [] = []
sort_by_name (p ∷ ps) = insert_by_name p (sort_by_name ps)

-- What load returns: no file, a lock, or an error.
pub data Loaded : Type 0 where
  missing : Loaded
  loaded : PiperineLock → Loaded
  load_error : Loaded

unfoldable pub load : Toml → File → Loaded
load toml file = elim file.content [
  | Content.missing ↦ Loaded.missing
  | Content.unreadable ↦ Loaded.load_error
  | Content.readable text ↦ elim (toml.from_str text) [
    | none ↦ Loaded.load_error
    | some lock ↦ Loaded.loaded lock
  ]
]

-- The file written, or none for an error.
unfoldable pub save : Toml → PiperineLock → File → Option File
save toml lock file =
    elim (toml.to_string_pretty (record { packages = sort_by_name lock.packages })) [
      | none ↦ none
      | some text ↦
          if file.writable then some (record file { content = Content.readable text }) else none
    ]

text_leq_refl : (a : Text) → text_leq a a ≡ true
unfolding text_leq
text_leq_refl [] = refl
text_leq_refl (c ∷ cs) = ground (arith, text_leq_refl cs)

same_name :
    (name : Text) (kind : EntryKind) (p : LockEntry) → is_entry name kind p ≡ true → p.name ≡ name
unfolding is_entry
same_name name kind p h = text_eq_to p.name name (ground arith)

-- Two entries that the same test finds are in order.
found-text_leq :
    (name : Text) (kind : EntryKind) (p q : LockEntry)
    → is_entry name kind p ≡ true
    → is_entry name kind q ≡ true
    → text_leq p.name q.name ≡ true
found-text_leq name kind p q h k =
    ap (λ x. text_leq p.name x) (same_name name kind q k ∙ sym (same_name name kind p h))
    ∙ text_leq_refl p.name

module _ (name : Text) (kind : EntryKind) where
  abbrev test : LockEntry → Bool
  test = is_entry name kind

  find-insert_by_name :
      (p : LockEntry) (qs : List LockEntry)
      → find test (insert_by_name p qs) ≡ (if test p then some p else find test qs)
  unfolding find insert_by_name
  find-insert_by_name p [] = refl
  find-insert_by_name p (q ∷ qs) = elim (Bool-cases (text_leq p.name q.name)) [
    | inl c ↦ rw c refl
    | inr c ↦ elim (Bool-cases (test q)) [
      | inr k ↦ rw (c, k) (find-insert_by_name p qs)
      | inl k ↦ elim (Bool-cases (test p)) [
        | inl h ↦ absurd (ground (arith, found-text_leq name kind p q h k))
        | inr h ↦ rw (c, k, h) refl
      ]
    ]
  ]

  -- Sorting changes no lookup.
  pub find-sort_by_name : (ps : List LockEntry) → find test (sort_by_name ps) ≡ find test ps
  unfolding find sort_by_name
  find-sort_by_name [] = refl
  find-sort_by_name (p ∷ ps) =
      find-insert_by_name p (sort_by_name ps) ∙ rw (find-sort_by_name ps) refl
