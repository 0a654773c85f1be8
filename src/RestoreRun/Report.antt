-- ===== src/RestoreRun/Report.antt =====
-- `updateRestoreResult` of pkg/storage/storage_restore.go, with `Update` of
-- pkg/handlers/handler_restore.go.
use backup_server.Base.{
  ℕ, zero, suc, String, Bool, Option, none, some, List, [], ◌∷◌, ◌++◌, if◌then◌else◌, Dict, get,
  put,
}
use backup_server.Base.Bytes.{Bytes, codes}

-- The fields of a Restore that its run writes.
pub record Restore : Type 0 where
  pub size : Option ℕ
  pub progress : ℕ
  pub phase : String
  pub message : Bytes
  pub restic_phase : String
  pub restic_message : Option Bytes
  pub start_at : Option ℕ
  pub end_at : Option ℕ
  pub extra : Dict Bytes

-- What is sent to the owner.
pub record Message : Type 0 where
  pub status : String
  pub progress : ℕ
  pub text : Bytes

pub record World : Type 0 where
  pub restores : Dict Restore
  pub sent : List Message

-- What a restore gives: the JSON of its summaries, the metadata and the bytes.
pub record Output : Type 0 where
  pub json : Bytes
  pub metadata : Bytes
  pub total_bytes : ℕ

-- The arguments of updateRestoreResult, with the JSON of RestoreAppStatus, if there is one. Where
-- there is an error, an output is still what has been given.
pub record Report : Type 0 where
  pub output : Option Output
  pub error : Option Bytes
  pub app_status : Option Bytes

-- The answer to a get: it is read, the connection fails, or there is another error, after which
-- there is no object.
pub data Read : Type 0 where
  read unreachable other : Read

-- What the world outside answers while one attempt is made: `again` and `writes` are the get and the
-- update of Update.
pub record Attempt : Type 0 where
  pub done : Bool
  pub now : ℕ
  pub reads : Read
  pub again : Bool
  pub writes : Bool

-- What an attempt comes to: the poll ends without or with an error, goes on, or a nil pointer is followed.
pub data Verdict : Type 0 where
  finished failed_to_write not_found again crashed : Verdict

abbrev pub phase_of : Option Bytes → String
phase_of none = "Completed"
phase_of (some text) = "Failed"

abbrev metadata_of : Option Output → Bytes
metadata_of none = []
metadata_of (some o) = o.metadata

abbrev with_metadata : Bytes → Dict Bytes → Dict Bytes
with_metadata [] extra = extra
with_metadata (c ∷ s) extra = put extra "metadata" (c ∷ s)

abbrev with_app_status : Option Bytes → Dict Bytes → Dict Bytes
with_app_status none extra = extra
with_app_status (some json) extra = put extra "restore_app_status" json

-- A result without an error and without an output, as where nothing was restored, is written as
-- one of no bytes.
abbrev bytes_of : Option Output → ℕ
bytes_of none = 0
bytes_of (some o) = o.total_bytes

abbrev json_of : Option Output → Bytes
json_of none = codes "null"
json_of (some o) = o.json

abbrev pub with_result : Report → Option Bytes → Restore → Restore
with_result p (some text) r = record r { phase = "Failed"; message = text; restic_phase = "Failed" }
with_result p none r = record r {
  size = some (bytes_of p.output);
  progress = 10000;
  phase = "Completed";
  message = codes "Completed";
  restic_phase = "Completed";
  restic_message = some (json_of p.output);
}

unfoldable pub new_restore : Report → ℕ → Restore → Restore
new_restore p now r =
    let t = with_result p p.error r in
    record t {
      end_at = some now;
      extra = with_app_status p.app_status (with_metadata (metadata_of p.output) t.extra);
    }

abbrev pub text_of : Option Bytes → Bytes
text_of none = codes "Completed"
text_of (some text) = text

abbrev pub progress_of : Option Bytes → Restore → ℕ
progress_of none r = 10000
progress_of (some text) r = r.progress

abbrev pub message_of : Report → Restore → Message
message_of p r = record {
  status = phase_of p.error;
  progress = progress_of p.error r;
  text = text_of p.error;
}

-- What is written where the object has been read.
abbrev pub write : String → Report → Attempt → Restore → World → Verdict × World
write id p a r w =
    let told = record w { sent = w.sent ++ message_of p r ∷ [] } in
    if a.again
    then (if a.writes
        then (finished, record told { restores = put w.restores id (new_restore p a.now r) })
        else (failed_to_write, told))
    else (failed_to_write, told)

abbrev pub with_read : String → Report → Attempt → Read → Option Restore → World → Verdict × World
with_read id p a unreachable found w = (again, w)
with_read id p a other found w = (crashed, w)
with_read id p a read none w = (not_found, w)
with_read id p a read (some r) w = write id p a r w

-- One attempt; where the context of the run has ended, nothing is stored.
unfoldable pub try_result : String → Report → Attempt → World → Verdict × World
unfolding new_restore
try_result id p a w =
    if a.done then (finished, w) else with_read id p a a.reads (get w.restores id) w

abbrev pub go_on : Verdict × World → (World → Verdict × World) → Verdict × World
go_on (again, w) rest = rest w
go_on (finished, w) rest = (finished, w)
go_on (failed_to_write, w) rest = (failed_to_write, w)
go_on (not_found, w) rest = (not_found, w)
go_on (crashed, w) rest = (crashed, w)

-- The attempts from the `k`-th on, of which `n` fit into the time of the poll.
unfoldable pub poll : String → Report → (ℕ → Attempt) → ℕ → ℕ → World → Verdict × World
unfolding try_result
poll id p answer zero k w = (again, w)
poll id p answer (suc n) k w =
    go_on (try_result id p (answer k) w) (λ v. poll id p answer n (suc k) v)

unfoldable pub update_restore_result : String → Report → (ℕ → Attempt) → ℕ → World → Verdict × World
unfolding poll
update_restore_result id p answer n w = poll id p answer n 0 w
