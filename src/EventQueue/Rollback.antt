-- ===== src/EventQueue/Rollback.antt =====
-- `checkpoint`, an attempt that pushes and drains, then `rollback`.
use mathlib.Core.List.{append_assoc, append-nil}
use piperine.Common.{
  ℕ, zero, suc, ◌+◌, ◌≡◌, ◌≤◌, ◌<◌, refl, ap, ◌∙◌, ◌⊎◌, inl, inr, Bool, true, false, not, ◌&&◌,
  ◌||◌, List, [], ◌∷◌, ◌++◌, some, if◌then◌else◌, arith, count_p, retain, contains, count_p-congr,
  count_p-true, count_p_mono, count_p-eq, contains_iff, contains-retain, count_p-congr_members,
  Option-cases, Bool-cases, bit,
}
use piperine.F64.{F64}
use piperine.BinaryHeap.{BinaryHeap, len}
use piperine.EventQueue.Entry.{EventEntry, entry_eq, entry_eq_iff, entry_leq}
use piperine.EventQueue.Queue.{
  EventQueue, Checkpoint, is_due, next_due, note, drain_loop, drain_due, checkpoint, is_transient,
  keep_loop, rebuild, restored_heap, rollback, push, Action, pushes, drains, attempt,
}
use piperine.EventQueue.Drain.{drain_due-Splits}

module _ {F : F64} (H : BinaryHeap (EventEntry F) (entry_leq F)) where
  open F use {Carrier, key}
  open H use {Heap, items, pop}

  moved :
      (gone : List (EventEntry F)) (keep : Heap) (entry : EventEntry F) (p : EventEntry F → Bool)
      → count_p p
          (items (if not (contains (entry_eq F) gone entry) then H.push keep entry else keep))
        ≡ bit (p entry && not (contains (entry_eq F) gone entry)) + count_p p (items keep)
  moved gone keep entry p = elim (Bool-cases (contains (entry_eq F) gone entry)) [
    | inl c ↦ rw c (ground arith)
    | inr c ↦ rw c (ground (arith, H.items-push keep entry p))
  ]

  -- `keep_loop` moves what is not listed, with fuel for every entry.
  keep_loop_count :
      (fuel : ℕ) (gone : List (EventEntry F)) (h keep : Heap) (p : EventEntry F → Bool)
      → len H h ≤ fuel
      → count_p p (items (keep_loop H fuel gone h keep))
        ≡ count_p p (items keep)
          + count_p (λ e. p e && not (contains (entry_eq F) gone e)) (items h)
  unfolding keep_loop
  keep_loop_count zero gone h keep p bound = omega (
    arith,
    count_p_mono (λ e. p e && not (contains (entry_eq F) gone e)) (λ _. true) (items h)
        (λ _ _. refl),
    count_p-true (items h),
  )
  keep_loop_count (suc fuel) gone h keep p bound = elim (Option-cases (pop h)) [
    | inl e ↦ rw (e, keep_loop) (rw (H.pop_none h e) (omega arith))
    | inr ((entry, rest), e) ↦
        let stays = λ (x : EventEntry F). p x && not (contains (entry_eq F) gone x) in
        let same = H.pop_some h rest entry e in
        let fits : len H rest ≤ fuel =
          omega (arith, same (λ _. true), count_p-true (items h), count_p-true (items rest)) in
        let keep' = if not (contains (entry_eq F) gone entry) then H.push keep entry else keep in
        rw (e, keep_loop)
          (omega (
            arith,
            keep_loop_count fuel gone rest keep' p fits,
            moved gone keep entry p,
            same stays,
          ))
  ]

  -- A drain adds what it returns to the record of the active checkpoint.
  drain_loop_notes :
      (fuel : ℕ) (now : Carrier) (q : EventQueue H) (chk : Checkpoint H)
      → q.checkpoint ≡ some chk
      → (drain_loop H fuel now q).1.checkpoint
        ≡ some (record chk { drained_since = chk.drained_since ++ (drain_loop H fuel now q).0 })
  unfolding drain_loop
  drain_loop_notes zero now q chk h = rw append-nil h
  drain_loop_notes (suc fuel) now q chk h = elim (Option-cases (next_due H now q.heap)) [
    | inl e ↦ rw (e, drain_loop) (rw append-nil h)
    | inr ((entry, rest), e) ↦
        rw (e, drain_loop) (drain_loop_notes fuel now _ _ (ap (note H entry) h) ∙ simp append_assoc)
  ]

  drain_due_notes :
      (now : Carrier) (q : EventQueue H) (chk : Checkpoint H)
      → q.checkpoint ≡ some chk
      → (drain_due H now q).1.checkpoint
        ≡ some (record chk { drained_since = chk.drained_since ++ (drain_due H now q).0 })
  unfolding drain_due
  drain_due_notes now q chk h = drain_loop_notes (len H q.heap) now q chk h

  -- Some drain of the attempt is at or after the entry's time.
  unfoldable pub comes_due : List (Action H) → EventEntry F → Bool
  comes_due [] e = false
  comes_due (pushes x ∷ rest) e = comes_due rest e
  comes_due (drains now ∷ rest) e = is_due H now e || comes_due rest e

  Holds : EventEntry F → Heap → Type 0
  Holds e h = 0 < count_p (entry_eq F e) (items h)

  -- What an attempt leaves in the checkpoint: its heap, and a record of the drained entries in which
  -- an entry that was queued stands if and only if it came due.
  abbrev Noted : List (Action H) → EventQueue H → Checkpoint H → Type 0
  Noted actions q chk =
      (log : List (EventEntry F)) × ((attempt H actions q).checkpoint
        ≡ some (record chk { drained_since = chk.drained_since ++ log }))
      × ((e : EventEntry F)
          → 0 < count_p (entry_eq F e) (items q.heap)
          → contains (entry_eq F) log e ≡ comes_due actions e)

  contains-append :
      (xs ys : List (EventEntry F)) (e : EventEntry F)
      → contains (entry_eq F) (xs ++ ys) e
        ≡ (contains (entry_eq F) xs e || contains (entry_eq F) ys e)
  contains-append [] ys e = refl
  contains-append (x ∷ xs) ys e = ground (arith, contains-append xs ys e)

  -- Of an entry that is queued, a drain returns all copies or none.
  drained_or_kept :
      (now : Carrier) (q : EventQueue H) (e : EventEntry F)
      → 0 < count_p (entry_eq F e) (items q.heap)
      → (contains (entry_eq F) (drain_due H now q).0 e ≡ is_due H now e)
        × ((is_due H now e ≡ true)
            ⊎ (0 < count_p (entry_eq F e) (items (drain_due H now q).1.heap)))
  drained_or_kept now q e m =
      let split = (drain_due-Splits H now q).0 (entry_eq F e) in
      ground (
        arith,
        split.0,
        split.1,
        contains_iff (entry_eq F) (entry_eq_iff F) (drain_due H now q).0 e,
        count_p-eq (entry_eq F) (entry_eq_iff F) e (is_due H now) (items q.heap),
        count_p-eq (entry_eq F) (entry_eq_iff F) e (λ x. not (is_due H now x)) (items q.heap),
      )

  attempt_notes :
      (actions : List (Action H)) (q : EventQueue H) (chk : Checkpoint H)
      → q.checkpoint ≡ some chk
      → Noted actions q chk
  unfolding attempt comes_due push
  attempt_notes [] q chk h = ([], rw append-nil h, λ e m. refl)
  attempt_notes (pushes x ∷ rest) q chk h =
      let (log, noted, exact) = attempt_notes rest (push H q x) chk h in
      (log, noted, λ e m. exact e (omega (arith, H.items-push q.heap x (entry_eq F e))))
  attempt_notes (drains now ∷ rest) q chk h =
      let due = (drain_due H now q).0 in
      let (log, noted, exact) =
        attempt_notes rest (drain_due H now q).1 _ (drain_due_notes now q chk h) in
      (
        due ++ log,
        noted ∙ simp append_assoc,
        λ e m. ground (arith, contains-append due log e, drained_or_kept now q e m, exact e),
      )

  -- Whether an entry that was queued at the checkpoint is queued again after the rollback.
  unfoldable pub survives : List (Action H) → EventEntry F → Bool
  survives actions e = not (is_transient H e && comes_due actions e)

  rebuild_count :
      (gone : List (EventEntry F)) (h : Heap) (p : EventEntry F → Bool)
      → count_p p (items (rebuild H gone h))
        ≡ count_p (λ e. p e && not (contains (entry_eq F) gone e)) (items h)
  unfolding rebuild
  rebuild_count [] h p = count_p-congr _ _ (items h) (λ e. ground arith)
  rebuild_count (e ∷ es) h p = omega (
    arith,
    keep_loop_count (len H h) (e ∷ es) h H.new p (omega arith),
    ap (count_p p) H.items-new,
  )

  -- A checkpoint, any pushes and drains, then a rollback: the queue then holds the entries that were
  -- queued at the checkpoint, each as often as then, less those of them that are re-polled or discarded
  -- and came due in a drain. Entries to restore and entries that never came due are back, and nothing
  -- that the attempt pushed stays.
  pub rollback_attempt :
      (q : EventQueue H) (actions : List (Action H)) (p : EventEntry F → Bool)
      → count_p p (items (rollback H (attempt H actions (checkpoint H q))).heap)
        ≡ count_p (λ e. p e && survives actions e) (items q.heap)
  unfolding rollback checkpoint survives restored_heap
  rollback_attempt q actions p =
      let (log, noted, exact) = attempt_notes actions (checkpoint H q) _ refl in
      rw (noted, rollback)
        (rebuild_count (retain (is_transient H) log) q.heap p
          ∙ count_p-congr_members (entry_eq F) (entry_eq_iff F) _ _ (items q.heap) (λ e m. ground (
            arith,
            contains-retain (entry_eq F) (entry_eq_iff F) (is_transient H) log e,
            exact e m,
          )))
