-- ===== src/BackupRun/Own.antt =====
-- The end of a run writes no other snapshot.
use backup_server.Base.{
  ℕ, zero, suc, ◌≡◌, ◌≢◌, ◌∙◌, refl, String, eq_iff, Option, none, some, Dict, get, put, get-put,
  arith, Bool-cases, inl, inr,
}
use backup_server.Base.Bytes.{Bytes}
use backup_server.BackupRun.Report.{
  Snapshot, Backup, World, Run, Report, Attempt, Object, stored, missing, unreached, nil, nameless,
  Verdict, finished, failed_to_write, again, crashed, new_snapshot,
}
use backup_server.BackupRun.Storing.{
  write_result, with_snapshot, with_backup, try_result, poll, update_backup_result, store, go_on,
}

module _ (to_json : Bytes → Bytes → Bytes) (r : Run) (p : Report) (P : Dict Snapshot → Type 0)
    (step : (m : Dict Snapshot) (s t : Snapshot) (now : ℕ)
      → new_snapshot r p now s ≡ some t
      → P m
      → P (put m r.snapshot t)) where
  abbrev Holds : Verdict × World → Type 0
  Holds x = P x.1.snapshots

  store-Holds :
      (a : Attempt) (s : Option Snapshot) (c : Option (Dict Backup)) (w : World)
      → P w.snapshots
      → ((t : Snapshot) → s ≡ some t → P (put w.snapshots r.snapshot t))
      → Holds (store r p a s c w)
  store-Holds a s none w h k = h
  store-Holds a none (some c) w h k = h
  store-Holds a (some s) (some c) w h k = elim (Bool-cases a.writes_snapshot) [
    | inl y ↦ rw y (k s refl)
    | inr n ↦ rw n h
  ]

  write_result-Holds :
      (a : Attempt) (t s : Option Snapshot) (b : Object Backup) (w : World)
      → P w.snapshots
      → ((t : Snapshot) → s ≡ some t → P (put w.snapshots r.snapshot t))
      → Holds (write_result to_json r p a t s b w)
  write_result-Holds a none s b w h k = h
  write_result-Holds a (some t) s b w h k = store-Holds a s _ w h k

  with_snapshot-Holds :
      (a : Attempt) (b : Object Backup) (s : Object Snapshot) (w : World)
      → P w.snapshots
      → Holds (with_snapshot to_json r p a b s w)
  with_snapshot-Holds a b missing w h = h
  with_snapshot-Holds a b unreached w h = h
  with_snapshot-Holds a b nil w h = h
  with_snapshot-Holds a b nameless w h = write_result-Holds a _ none b w h (λ t e. cc)
  with_snapshot-Holds a b (stored s) w h =
      write_result-Holds a (new_snapshot r p a.now s) (new_snapshot r p a.now s) b w h
        (λ t e. step w.snapshots s t a.now e h)

  with_backup-Holds :
      (a : Attempt) (b : Object Backup) (w : World)
      → P w.snapshots
      → Holds (with_backup to_json r p a b w)
  with_backup-Holds a missing w h = h
  with_backup-Holds a unreached w h = h
  with_backup-Holds a nil w h = with_snapshot-Holds a nil _ w h
  with_backup-Holds a nameless w h = with_snapshot-Holds a nameless _ w h
  with_backup-Holds a (stored b) w h = with_snapshot-Holds a (stored b) _ w h

  try_result-Holds : (a : Attempt) (w : World) → P w.snapshots → Holds (try_result to_json r p a w)
  unfolding try_result
  try_result-Holds a w h = elim (Bool-cases a.done) [
    | inl y ↦ rw y h
    | inr n ↦ rw n (with_backup-Holds a _ w h)
  ]

  go_on-Holds :
      (x : Verdict × World) (rest : World → Verdict × World)
      → Holds x
      → ((v : World) → P v.snapshots → Holds (rest v))
      → Holds (go_on x rest)
  go_on-Holds (again, v) rest h later = later v h
  go_on-Holds (finished, v) rest h later = h
  go_on-Holds (failed_to_write, v) rest h later = h
  go_on-Holds (crashed, v) rest h later = h

  poll-Holds :
      (answer : ℕ → Attempt) (n i : ℕ) (w : World)
      → P w.snapshots
      → Holds (poll to_json r p answer n i w)
  unfolding poll
  poll-Holds answer zero i w h = h
  poll-Holds answer (suc n) i w h =
      go_on-Holds (try_result to_json r p (answer i) w) (λ v. poll to_json r p answer n (suc i) v)
        (try_result-Holds (answer i) w h) (λ v k. poll-Holds answer n (suc i) v k)

  -- What every new snapshot of the run keeps is kept while its result is stored.
  pub result-Holds :
      (answer : ℕ → Attempt) (n : ℕ) (w : World)
      → P w.snapshots
      → P (update_backup_result to_json r p answer n w).1.snapshots
  unfolding update_backup_result
  result-Holds answer n w h = poll-Holds answer n 0 w h

put-keeps : (m : Dict Snapshot) (k j : String) (s : Snapshot) → k ≢ j → get (put m j s) k ≡ get m k
put-keeps m k j s another = ground (arith, get-put m j k s, eq_iff j k)

-- Storing the result of a run changes no other snapshot, whatever the API server answers.
pub other_snapshots_kept :
    (to_json : Bytes → Bytes → Bytes) (r : Run) (p : Report) (answer : ℕ → Attempt) (n : ℕ)
    (w : World) (k : String)
    → k ≢ r.snapshot
    → get (update_backup_result to_json r p answer n w).1.snapshots k ≡ get w.snapshots k
other_snapshots_kept to_json r p answer n w k another =
    result-Holds to_json r p (λ m. get m k ≡ get w.snapshots k)
      (λ m s t now e h. put-keeps m k r.snapshot t another ∙ h) answer n w refl
