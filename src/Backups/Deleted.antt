-- ===== src/Backups/Deleted.antt =====
-- What the reconciliation of a deleted backup leaves.
use backup_server.Base.{
  String, str_eq, ◌≡◌, ◌∙◌, ap, sym, refl, true, false, not, ◌&&◌, none, some, [], ◌∷◌, Dict, get,
  get-remove, arith, count, count-none, Bool-cases, inl, inr,
}
use text.Mathlib.TextPositions.{eq_refl}
use backup_server.Schedule.{Cron, IsCron, remove_from_schedule}
use backup_server.Schedule.Replace.{remove_from_schedule_lem}
use backup_server.Schedule.Reach.{named}
use backup_server.Snapshots.Types.{Snapshot}
use backup_server.Snapshots.Handler.{list_snapshots}
use backup_server.Snapshots.Notified.{Cancel-cases}
use backup_server.Worker.Add.{exists_task}
use backup_server.Worker.Cancel.{cancel_backup, pools_after}
use backup_server.Worker.Effects.{exists_task-cancel_backup}
use backup_server.Worker.Stopped.{ActiveEnds, cancel_backup-ActiveEnds}
use backup_server.Backups.{
  Policy, Backup, World, Answers, done, delete_snapshots, is_space, delete_backup, on_deleted,
  reconcile,
}

list_snapshots-delete_snapshots :
    (b : String) (store : Dict Snapshot) → list_snapshots b (delete_snapshots b store) ≡ []
unfolding list_snapshots delete_snapshots
list_snapshots-delete_snapshots b [] = refl
list_snapshots-delete_snapshots b ((k, s) ∷ store) = elim (Bool-cases (str_eq s.backup_id b)) [
  | inl y ↦ rw y (list_snapshots-delete_snapshots b store)
  | inr n ↦ rw n (rw (n, list_snapshots) (list_snapshots-delete_snapshots b store))
]

-- Nothing of the backup is left: no task of it that is not cancelled, no context of its active task
-- that is not ended, no schedule, no snapshot, no object.
pub record Gone (c : Cron) (b : Backup) (w : World c) : Type 0 where
  pub tasks : exists_task b.owner b.name w.pools ≡ false
  pub active : ActiveEnds b.owner b.name w.pools
  pub schedule : count (named b.name) (c.entries w.cron) ≡ 0
  pub snapshots : list_snapshots b.name w.snapshots ≡ []
  pub object : get w.backups b.name ≡ none

module _ (c : Cron) (v : IsCron c) (a : Answers) (b : Backup) where
  unscheduled :
      (s : c.State) → count (named b.name) (c.entries (remove_from_schedule c b.name s)) ≡ 0
  unscheduled s =
      remove_from_schedule_lem c v b.name s (named b.name)
      ∙ count-none (λ e. named b.name e && not (str_eq e.name b.name)) (c.entries s)
          (λ e. ground arith)

  cleared :
      (w : World c)
      → exists_task b.owner b.name w.pools ≡ false
      → ActiveEnds b.owner b.name w.pools
      → count (named b.name) (c.entries w.cron) ≡ 0
      → (delete_backup c a b w).0 ≡ true
      → Gone c b (delete_backup c a b w).1
  unfolding delete_backup
  cleared w t ends s = elim (Bool-cases a.deletes_snapshots) [
    | inr n ↦ rw n (λ h. cc)
    | inl x ↦ elim (Bool-cases (is_space b.location && not a.has_token)) [
      | inl n ↦ rw (x, n) (λ h. cc)
      | inr y ↦ elim (Bool-cases a.deletes) [
        | inr n ↦ rw (x, y, n) (λ h. cc)
        | inl z ↦
            rw (x, y, z)
              (λ h. record {
                tasks = t;
                active = ends;
                schedule = s;
                snapshots = list_snapshots-delete_snapshots b.name w.snapshots;
                object = rw (get-remove, eq_refl) refl;
              })
      ]
    ]
  ]

  deleted : (w : World c) → (on_deleted c a b w).0 ≡ done → Gone c b (on_deleted c a b w).1
  unfolding on_deleted
  deleted w = elim (Cancel-cases (cancel_backup b.owner b.name w.pools)) [
    | inr r ↦ rw (r.1, on_deleted) (λ h. cc)
    | inl r ↦
        let v' = record w { pools = r.0; cron = remove_from_schedule c b.name w.cron } in
        let ends = ap (λ o. exists_task b.owner b.name (pools_after o)) r.1 in
        let quiet = sym ends ∙ exists_task-cancel_backup b.owner b.name w.pools in
        let stopped = cancel_backup-ActiveEnds b.owner b.name w.pools r.0 r.1 in
        elim (Bool-cases (delete_backup c a b v').0) [
          | inr n ↦ rw (r.1, n, on_deleted) (λ h. cc)
          | inl y ↦ rw (r.1, y, on_deleted) (λ h. cleared v' quiet stopped (unscheduled w.cron) y)
        ]
  ]

  -- After a reconciliation without an error nothing is left of a stored backup that has a policy and
  -- is marked as deleted: each of its tasks in the map of its owner is marked as cancelled, the
  -- context of the owner's active task is ended if it is a task of the backup, and there is no entry
  -- of the schedule, no snapshot and no object. The cron library is taken to do what it documents.
  pub deleted_gone :
      (id : String) (p : Policy) (w : World c)
      → get w.backups id ≡ some b
      → b.policy ≡ some p
      → b.deleted ≡ true
      → (reconcile c a id w).0 ≡ done
      → Gone c b (reconcile c a id w).1
  unfolding reconcile
  deleted_gone id p w f policy marked = elim (Bool-cases a.client) [
    | inr n ↦ rw n (λ h. cc)
    | inl y ↦ elim (Bool-cases a.reads) [
      | inr n ↦ rw (y, n) (λ h. cc)
      | inl r ↦ simp (y, r, f, policy, marked) (deleted w)
    ]
  ]
