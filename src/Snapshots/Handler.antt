-- ===== src/Snapshots/Handler.antt =====
-- The operations of the snapshot handler on the stored objects. `wrote` is the answer of the API
-- server to an update, `read` its answer to a get.
use backup_server.Base.{
  ℕ, String, str_eq, Bool, true, false, not, none, some, List, [], ◌∷◌, if◌then◌else◌, Dict, get,
  put, Result, ok, err,
}
use backup_server.Base.Int.{ℤ}
use backup_server.Snapshots.Types.{
  nil, no_push, malformed, null_push, push, Snapshot, running, completed,
}

pub data HandlerError : Type 0 where
  not_read not_found not_running not_written bad_extra : HandlerError

pub data Reply : Type 0 where
  replied : Result HandlerError (Unit {0}) → Reply
  panicked : Reply

-- The update of one object.
unfoldable pub update : Bool → Snapshot → Dict Snapshot → Reply × Dict Snapshot
update wrote s store =
    if wrote then (replied (ok tt), put store s.name s) else (replied (err not_written), store)

unfoldable pub get_by_id : Bool → String → Dict Snapshot → Result HandlerError Snapshot
get_by_id read id store =
    if read then elim (get store id) [ none ↦ err not_found | some s ↦ ok s ] else err not_read

-- Only a running snapshot has its progress updated.
unfoldable pub update_progress : Bool → Bool → String → ℤ → Dict Snapshot → Reply × Dict Snapshot
unfolding get_by_id update
update_progress read wrote id percent store = elim (get_by_id read id store) [
  | err e ↦ (replied (err e), store)
  | ok s ↦
      if not (str_eq s.phase running)
      then (replied (err not_running), store)
      else update wrote (record s { progress = percent }) store
]

abbrev pub with_phase : ℕ → String → String → Snapshot → Snapshot
with_phase now phase message s =
    if str_eq phase running
    then record s { start_at = now; phase = phase; message = message }
    else record s { end_at = some now; phase = phase; message = message }

unfoldable pub update_phase :
    Bool → Bool → ℕ → String → String → String → Dict Snapshot → Reply × Dict Snapshot
unfolding get_by_id update
update_phase read wrote now id phase message store = elim (get_by_id read id store) [
  | err e ↦ (replied (err e), store)
  | ok s ↦ update wrote (with_phase now phase message s) store
]

-- The flag of the result is set in the object that the caller has read.
unfoldable pub update_notify_result_state : Bool → Snapshot → Dict Snapshot → Reply × Dict Snapshot
unfolding update
update_notify_result_state wrote s store = elim s.extra [
  | nil ↦ (replied (err bad_extra), store)
  | no_push ↦ (replied (err bad_extra), store)
  | malformed ↦ (replied (err bad_extra), store)
  | null_push ↦ (panicked, store)
  | push n ↦ update wrote (record s { extra = push (record n { result = true }) }) store
]

-- The listed objects of a backup.
unfoldable pub list_snapshots : String → Dict Snapshot → List Snapshot
list_snapshots b [] = []
list_snapshots b ((k, s) ∷ store) =
    let rest = list_snapshots b store in if str_eq s.backup_id b then s ∷ rest else rest

unfoldable pub any_in_phase : String → List Snapshot → Bool
any_in_phase phase [] = false
any_in_phase phase (s ∷ l) = if str_eq s.phase phase then true else any_in_phase phase l

unfoldable pub get_running_snapshot : Bool → String → Dict Snapshot → Result HandlerError Bool
unfolding list_snapshots any_in_phase
get_running_snapshot read b store =
    if read then ok (any_in_phase running (list_snapshots b store)) else err not_read

pub data SnapshotType : Type 0 where
  fully incremental : SnapshotType

-- The type is named even where the listing fails.
unfoldable pub get_snapshot_type : Bool → String → Dict Snapshot → SnapshotType × Bool
unfolding list_snapshots any_in_phase
get_snapshot_type read b store =
    if read
    then (if any_in_phase completed (list_snapshots b store) then incremental else fully, true)
    else (fully, false)
