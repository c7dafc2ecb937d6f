-- ===== src/Lockfile/Trust.antt =====
-- What is found in a lockfile after a trust decision.
use mathlib.Core.Option
use piperine.Common.{
  ◌&&◌, not, ◌≡◌, refl, sym, ap, ◌∙◌, ◌⊎◌, inl, inr, Bool, true, false, List, [], ◌∷◌, ◌++◌, none,
  some, if◌then◌else◌, retain, Text, text_eq, text_eq_to, text_eq_refl, arith, Bool-cases,
}
use piperine.Lockfile.{
  EntryKind, kind_eq, LockEntry, PiperineLock, is_entry, find, get_hash, plugin_entry,
  record_plugin,
}

kind-cases : (k : EntryKind) → (k ≡ EntryKind.dependency) ⊎ (k ≡ EntryKind.plugin)
kind-cases EntryKind.dependency = inl refl
kind-cases EntryKind.plugin = inr refl

-- The last entry is found if nothing before it is.
find_served :
    (test : LockEntry → Bool) (ps : List LockEntry) (entry : LockEntry)
    → find test ps ≡ none
    → test entry ≡ true
    → find test (ps ++ entry ∷ []) ≡ some entry
unfolding find
find_served test [] entry h k = rw (k, find) refl
find_served test (p ∷ ps) entry h k = elim (Bool-cases (test p)) [
  | inl c ↦ absurd (ground (arith, rw (c, find) at h))
  | inr c ↦ rw (c, find) (find_served test ps entry (rw (c, find) at h) k)
]

-- Entries that the test never takes may be left out.
find-retain :
    (test keep : LockEntry → Bool) (ps : List LockEntry)
    → ((p : LockEntry) → test p ≡ true → keep p ≡ true)
    → find test (retain keep ps) ≡ find test ps
unfolding find
find-retain test keep [] h = refl
find-retain test keep (p ∷ ps) h = elim (Bool-cases (test p)) [
  | inl c ↦ rw (h p c, find, c) refl
  | inr c ↦ elim (Bool-cases (keep p)) [
    | inl k ↦ rw (k, find, c) (find-retain test keep ps h)
    | inr k ↦ rw (k, find, c) (find-retain test keep ps h)
  ]
]

-- Nothing is found if what the test takes was left out.
find-none :
    (test keep : LockEntry → Bool) (ps : List LockEntry)
    → ((p : LockEntry) → test p ≡ true → keep p ≡ false)
    → find test (retain keep ps) ≡ none
unfolding find
find-none test keep [] h = refl
find-none test keep (p ∷ ps) h = elim (Bool-cases (keep p)) [
  | inl k ↦ elim (Bool-cases (test p)) [
    | inl c ↦ absurd (ground (arith, h p c))
    | inr c ↦ rw (k, find, c) (find-none test keep ps h)
  ]
  | inr k ↦ rw k (find-none test keep ps h)
]

is_entry-name :
    (name : Text) (kind : EntryKind) (p : LockEntry) → is_entry name kind p ≡ true → p.name ≡ name
unfolding is_entry
is_entry-name name kind p h = text_eq_to p.name name (ground arith)

-- The last entry serves the entries that nothing before it serves.
find_last :
    (test : LockEntry → Bool) (ps : List LockEntry) (entry : LockEntry)
    → test entry ≡ false
    → find test (ps ++ entry ∷ []) ≡ find test ps
unfolding find
find_last test [] entry h = rw (h, find) refl
find_last test (p ∷ ps) entry h = elim (Bool-cases (test p)) [
  | inl c ↦ rw (c, find) refl
  | inr c ↦ rw (c, find) (find_last test ps entry h)
]

module _ (entry : LockEntry) (kind : entry.kind ≡ EntryKind.plugin) (name : Text) where
  -- What `record_plugin` keeps.
  abbrev keeps : LockEntry → Bool
  keeps p = not (kind_eq p.kind EntryKind.plugin && text_eq p.name entry.name)

  replaced_out :
      text_eq entry.name name ≡ true
      → (p : LockEntry) → is_entry name EntryKind.plugin p ≡ true
      → keeps p ≡ false
  unfolding is_entry
  replaced_out c p h =
      let eq : p.name ≡ entry.name =
        is_entry-name name EntryKind.plugin p h ∙ sym (text_eq_to entry.name name c) in
      ground (arith, ap (λ x. text_eq x entry.name) eq, text_eq_refl entry.name)

  others_kept :
      text_eq entry.name name ≡ false
      → (p : LockEntry) → is_entry name EntryKind.plugin p ≡ true
      → keeps p ≡ true
  others_kept c p h = elim (Bool-cases (text_eq p.name entry.name)) [
    | inr d ↦ ground arith
    | inl d ↦
        let eq : entry.name ≡ name =
          sym (text_eq_to p.name entry.name d) ∙ is_entry-name name EntryKind.plugin p h in
        absurd (ground (arith, ap (λ x. text_eq entry.name x) eq, text_eq_refl entry.name))
  ]

  plugin_test : is_entry name EntryKind.plugin entry ≡ text_eq entry.name name
  unfolding is_entry kind_eq
  plugin_test =
      rw kind
        (elim (Bool-cases (text_eq entry.name name)) [ inl c ↦ rw c refl | inr c ↦ rw c refl ])

  dependency_test : is_entry name EntryKind.dependency entry ≡ false
  unfolding is_entry kind_eq
  dependency_test =
      rw kind
        (elim (Bool-cases (text_eq entry.name name)) [ inl c ↦ rw c refl | inr c ↦ rw c refl ])

  dependencies_kept : (p : LockEntry) → is_entry name EntryKind.dependency p ≡ true → keeps p ≡ true
  unfolding is_entry kind_eq
  dependencies_kept p h = elim (kind-cases p.kind) [
    | inl d ↦ rw d refl
    | inr d ↦ absurd (ground (arith, ap (λ k. kind_eq k EntryKind.dependency) d))
  ]

-- Recording a trusted plugin replaces the entry of that plugin, and leaves those of the other plugins and
-- the hash of every dependency, also of one by the same name.
pub record_plugin_replaces :
    (lock : PiperineLock) (entry : LockEntry) (name : Text)
    → entry.kind ≡ EntryKind.plugin
    → (plugin_entry (record_plugin lock entry) name
        ≡ (if text_eq entry.name name then some entry else plugin_entry lock name))
      × (get_hash (record_plugin lock entry) name ≡ get_hash lock name)
unfolding plugin_entry get_hash record_plugin
record_plugin_replaces lock entry name kind =
    let keep = keeps entry kind name in
    let left = retain keep lock.packages in
    (
      elim (Bool-cases (text_eq entry.name name)) [
        | inl c ↦ rw c (
            find_served (is_entry name EntryKind.plugin) left entry
              (find-none (is_entry name EntryKind.plugin) keep lock.packages
                (replaced_out entry kind name c))
              (plugin_test entry kind name ∙ c))
        | inr c ↦ rw c (
            find_last (is_entry name EntryKind.plugin) left entry (plugin_test entry kind name ∙ c)
            ∙ find-retain (is_entry name EntryKind.plugin) keep lock.packages
                (others_kept entry kind name c))
      ],
      ap (Option.map (λ p. p.hash)) (
          find_last (is_entry name EntryKind.dependency) left entry
            (dependency_test entry kind name)
          ∙ find-retain (is_entry name EntryKind.dependency) keep lock.packages
              (dependencies_kept entry kind name)),
    )
