-- ===== src/BackupRun/Reported.antt =====
-- What is stored of the result of a backup.
use native.Mathlib.Nat.{zero-add, suc-add, add-zero}
use backup_server.Base.{
  ℕ, zero, suc, ◌+◌, ◌≤◌, ◌<◌, ◌≡◌, ◌≢◌, ◌⊎◌, inl, inr, ◌∙◌, refl, ap, true, false, Option, none,
  some, [], ◌∷◌, ◌++◌, Dict, get, put, arith, Bool-cases,
}
use backup_server.Base.Bytes.{Bytes}
use backup_server.BackupRun.Space.{Summary}
use backup_server.BackupRun.Report.{
  Snapshot, Backup, World, Run, Report, read, unreachable, Attempt, stored, finished,
  failed_to_write, again, phase_of, with_result, new_extra, new_snapshot, message_of,
}
use backup_server.BackupRun.Storing.{
  total_size_of, update_total_size, try_result, poll, update_backup_result, store, go_on,
}

-- A report has an error or an output.
abbrev pub IsReport : Report → Type 0
IsReport p = (p.error ≢ none) ⊎ (p.output ≢ none)

-- The snapshot that a report makes of another one ends at the time `now`, in the phase of the report.
abbrev pub Ends : Report → ℕ → Snapshot → Type 0
Ends p now t =
    (t.phase ≡ phase_of p.error) × (t.restic_phase ≡ phase_of p.error) × (t.end_at ≡ some now)

with_result-phase :
    (r : Run) (error : Option Bytes) (output : Option Summary) (s : Snapshot)
    → (error ≢ none) ⊎ (output ≢ none)
    → (t : Snapshot) × (with_result r error output s ≡ some t)
      × (t.phase ≡ phase_of error)
      × (t.restic_phase ≡ phase_of error)
with_result-phase r (some text) output s h = (_, refl, refl, refl)
with_result-phase r none (some o) s h = (_, refl, refl, refl)
with_result-phase r none none s (inl e) = absurd (e refl)
with_result-phase r none none s (inr e) = absurd (e refl)

new_snapshot-Ends :
    (r : Run) (p : Report) (now : ℕ) (s : Snapshot)
    → IsReport p
    → (t : Snapshot) × (new_snapshot r p now s ≡ some t) × Ends p now t
unfolding new_snapshot
new_snapshot-Ends r p now s h =
    let (t, e, phase, restic) = with_result-phase r p.error p.output s h in
    (
      record t { end_at = some now; extra = new_extra r p t.extra },
      rw (e, new_snapshot) refl,
      (phase, restic, refl),
    )

-- The attempt cannot reach the API server.
abbrev pub IsBlocked : Attempt → Type 0
IsBlocked a =
    (a.done ≡ false)
    × ((a.reads_backup ≡ unreachable)
        ⊎ ((a.reads_backup ≡ read) × (a.reads_snapshot ≡ unreachable)))

-- The context of the run goes on, and both objects are read.
abbrev pub Reads : Attempt → Type 0
Reads a = (a.done ≡ false) × (a.reads_backup ≡ read) × (a.reads_snapshot ≡ read)

module _ (to_json : Bytes → Bytes → Bytes) (r : Run) (p : Report) where
  module _ (w : World) (b : Backup) (s : Snapshot) (has_backup : get w.backups r.backup ≡ some b)
      (has_snapshot : get w.snapshots r.snapshot ≡ some s) where
    blocked-again : (a : Attempt) → IsBlocked a → try_result to_json r p a w ≡ (again, w)
    unfolding try_result
    blocked-again a (go, inl x) = rw (go, x) refl
    blocked-again a (go, inr (x, y)) = rw (go, x, has_backup, y) refl

    -- An attempt that reads both objects writes the snapshot, or is refused and keeps it.
    attempt_stores :
        (a : Attempt) (t : Snapshot)
        → Reads a
        → new_snapshot r p a.now s ≡ some t
        → try_result to_json r p a w
          ≡ store r p a (some t) (total_size_of to_json r p a p.output (stored b) w.backups) w
    unfolding try_result
    attempt_stores a t (go, x, y) e = rw (go, x, has_backup, y, has_snapshot, e) refl

total_size-some :
    (to_json : Bytes → Bytes → Bytes) (r : Run) (p : Report) (a : Attempt) (o : Option Summary)
    (b : Backup) (backups : Dict Backup)
    → (c : Dict Backup) × (total_size_of to_json r p a o (stored b) backups ≡ some c)
unfolding update_total_size
total_size-some to_json r p a none b backups = (_, refl)
total_size-some to_json r p a (some o) b backups = elim (Bool-cases a.writes_backup) [
  | inl y ↦ rw y (_, refl)
  | inr n ↦ rw n (_, refl)
]

module _ (to_json : Bytes → Bytes → Bytes) (r : Run) (p : Report) (answer : ℕ → Attempt) (w : World)
    (b : Backup) (s : Snapshot) (has_backup : get w.backups r.backup ≡ some b)
    (has_snapshot : get w.snapshots r.snapshot ≡ some s) where
  after_blocked :
      (j n k : ℕ)
      → ((i : ℕ) → k ≤ i → i < k + j → IsBlocked (answer i))
      → poll to_json r p answer (j + n) k w ≡ poll to_json r p answer n (k + j) w
  unfolding poll
  after_blocked zero n k blocked = rw (zero-add, add-zero) refl
  after_blocked (suc j) n k blocked =
      let here =
        blocked-again to_json r p w b s has_backup has_snapshot (answer k)
          (blocked k (omega arith) (omega arith)) in
      rw (suc-add, here)
        (after_blocked j n (suc k) (λ i le lt. blocked i (omega arith) (omega arith))
          ∙ ap (λ (i : ℕ). poll to_json r p answer n i w) (omega arith))

  arrives :
      (j n : ℕ)
      → ((i : ℕ) → i < j → IsBlocked (answer i))
      → poll to_json r p answer (j + suc n) 0 w
        ≡ go_on (try_result to_json r p (answer j) w) (λ v. poll to_json r p answer n (suc j) v)
  unfolding poll
  arrives j n blocked =
      after_blocked j (suc n) 0 (λ i le lt. blocked i (omega arith)) ∙ rw zero-add refl

  -- The result is stored when the first attempt that reaches the API server reads both objects and
  -- is not refused: the poll ends, the snapshot is in the phase of the result and has an end, all
  -- other snapshots are as before, and the owner is told the phase.
  pub result_stored :
      (j n : ℕ)
      → IsReport p
      → ((i : ℕ) → i < j → IsBlocked (answer i))
      → Reads (answer j)
      → (answer j).writes_snapshot ≡ true
      → let (verdict, v) = update_backup_result to_json r p answer (j + suc n) w in
        (t : Snapshot) × (verdict ≡ finished)
        × (v.snapshots ≡ put w.snapshots r.snapshot t)
        × (v.sent ≡ w.sent ++ message_of p ∷ [])
        × Ends p (answer j).now t
  unfolding update_backup_result poll
  result_stored j n sound blocked reads writes =
      let (t, e, ends) = new_snapshot-Ends r p (answer j).now s sound in
      let (c, f) = total_size-some to_json r p (answer j) p.output b w.backups in
      let here = attempt_stores to_json r p w b s has_backup has_snapshot (answer j) t reads e in
      let written : poll to_json r p answer (j + suc n) 0 w ≡ (
        finished,
        record {
          snapshots = put w.snapshots r.snapshot t;
          backups = c;
          sent = w.sent ++ message_of p ∷ [];
        },
      ) =
        arrives j n blocked ∙ rw (here, f, writes) refl in
      (t, ap (λ x. x.0) written, ap (λ x. x.1.snapshots) written, ap (λ x. x.1.sent) written, ends)

  -- A refused update of the snapshot is not tried again: where the first attempt that reaches the
  -- API server reads both objects and is refused, the poll ends with an error and every snapshot is
  -- as before, although the owner is told the phase of the result.
  pub refused_result :
      (j n : ℕ)
      → IsReport p
      → ((i : ℕ) → i < j → IsBlocked (answer i))
      → Reads (answer j)
      → (answer j).writes_snapshot ≡ false
      → let (verdict, v) = update_backup_result to_json r p answer (j + suc n) w in
        (verdict ≡ failed_to_write)
        × (v.snapshots ≡ w.snapshots)
        × (v.sent ≡ w.sent ++ message_of p ∷ [])
  unfolding update_backup_result
  refused_result j n sound blocked reads writes =
      let (t, e, ends) = new_snapshot-Ends r p (answer j).now s sound in
      let (c, f) = total_size-some to_json r p (answer j) p.output b w.backups in
      let here = attempt_stores to_json r p w b s has_backup has_snapshot (answer j) t reads e in
      let refused : poll to_json r p answer (j + suc n) 0 w ≡ (
        failed_to_write,
        record { snapshots = w.snapshots; backups = c; sent = w.sent ++ message_of p ∷ [] },
      ) =
        arrives j n blocked ∙ rw (here, f, writes) refl in
      (ap (λ x. x.0) refused, ap (λ x. x.1.snapshots) refused, ap (λ x. x.1.sent) refused)
