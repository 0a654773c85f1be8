-- ===== src/RestoreRun/Steps.antt =====
-- The steps of `RunRestore` of pkg/storage/storage_restore.go: the loop of the space, `execute`, the
-- files that are left and `readyForRestoreApp`.
use backup_server.Base.{
  ℕ, zero, suc, String, str_eq, Bool, not, ◌||◌, Option, none, some, List, [], ◌∷◌, ◌++◌,
  if◌then◌else◌, Dict, Result, ok, err,
}
use backup_server.Base.Bytes.{Bytes, codes, strip_prefix}
use backup_server.Tokens.{SpaceToken, TokenError, CloudToken, get_integration_space_token}
use backup_server.BackupRun.App.{Stop, failed, crashed, waits}
use backup_server.BackupRun.Cloud.{Location}
use backup_server.BackupRun.Space.{is_refresh}
use backup_server.RestoreRun.Report.{Output}

-- What the backups SDK gives.
pub data Download : Type 0 where
  downloaded : Output → Download
  download_failed : Bytes → Download

-- What the world outside answers in one round: the two calls for a token, and the download.
pub record Round : Type 0 where
  pub now : ℕ
  pub token : Option SpaceToken
  pub later : ℕ
  pub later_token : Option SpaceToken
  pub download : SpaceToken → Download

-- What a round leaves: the result, where the loop ends with it, and the cache of tokens.
pub record Rest : Type 0 where
  pub ended : Option (Result Stop Output)
  pub cache : Dict SpaceToken

module _ (token_text : TokenError → Bytes) (name : String) where
  abbrev no_token : TokenError → Dict SpaceToken → Rest
  no_token e cache = record {
    ended = some (err (failed (codes "get space token error: " ++ token_text e)));
    cache = cache;
  }

  -- After an error that asks for another token, the token is asked for at once.
  abbrev renewed : Result TokenError SpaceToken × Dict SpaceToken → Rest
  renewed (err e, cache) = no_token e cache
  renewed (ok t, cache) = record { ended = none; cache = cache }

  abbrev after_download : Round → Dict SpaceToken → Download → Rest
  after_download r cache (downloaded o) = record { ended = some (ok o); cache = cache }
  after_download r cache (download_failed text) =
      if is_refresh text
      then renewed (get_integration_space_token r.later name r.later_token cache)
      else record { ended = some (err (failed text)); cache = cache }

  abbrev with_token : Round → Result TokenError SpaceToken × Dict SpaceToken → Rest
  with_token r (err e, cache) = no_token e cache
  with_token r (ok t, cache) = after_download r cache (r.download t)

  unfoldable pub one_round : Round → Dict SpaceToken → Rest
  one_round r cache = with_token r (get_integration_space_token r.now name r.token cache)

  abbrev pub go_on : Rest → Rest → Rest
  go_on r later = elim r.ended [ some e ↦ r | none ↦ later ]

  -- At most `fuel` rounds from the round `k` on.
  unfoldable pub restore_from_space : (ℕ → Round) → ℕ → ℕ → Dict SpaceToken → Rest
  unfolding one_round
  restore_from_space round zero k cache = record { ended = none; cache = cache }
  restore_from_space round (suc fuel) k cache =
      let r = one_round (round k) cache in go_on r (restore_from_space round fuel (suc k) r.cache)

abbrev pub of_download : Download → Result Stop Output
of_download (downloaded o) = ok o
of_download (download_failed text) = err (failed text)

-- Without a token the message of the error reads a field of the nil token.
abbrev pub of_cloud : (CloudToken → Download) → Result Bytes CloudToken → Result Stop Output
of_cloud download (ok t) = of_download (download t)
of_cloud download (err e) = err crashed

abbrev pub or_waits : Option (Result Stop Output) → Result Stop Output
or_waits none = err waits
or_waits (some r) = r

-- execute, where `space` is the result of the loop of the space; for a location of another kind the
-- service is nil.
unfoldable pub execute :
    Location
    → Option (Result Stop Output)
    → Result Bytes CloudToken
    → (CloudToken → Download)
    → Download
    → Result Stop Output
execute l space token with_cloud from_disk =
    if str_eq l.kind "space"
    then or_waits space
    else if str_eq l.kind "awss3" || str_eq l.kind "tencentcloud"
    then of_cloud with_cloud token
    else if str_eq l.kind "filesystem"
    then of_download from_disk
    else err crashed

-- ReplaceAll(s, old, "") for a text `old` that is not empty; the fuel is the length of `s`.
unfoldable pub delete_all : ℕ → Bytes → Bytes → Bytes
delete_all fuel old [] = []
delete_all zero old (c ∷ s) = c ∷ s
delete_all (suc fuel) old (c ∷ s) = elim (strip_prefix old (c ∷ s)) [
  | none ↦ c ∷ delete_all fuel old s
  | some rest ↦ delete_all fuel old rest
]

abbrev length_of : Bytes → ℕ
length_of [] = zero
length_of (c ∷ s) = suc (length_of s)

-- What is done to the files that were restored.
pub data FileOp : Type 0 where
  removes : Bytes → FileOp
  renames : Bytes → Bytes → FileOp

unfoldable pub remove_restore_files : Bool → Bytes → List FileOp
remove_restore_files is_app path = if is_app then [] else removes path ∷ []

unfoldable pub rename_restore_directory : Bool → Bytes → List FileOp
unfolding delete_all
rename_restore_directory is_app path =
    if is_app then [] else renames path (delete_all (length_of path) (codes ".restore") path) ∷ []

-- What the app answers at a tick: an error, or a status with its message and its JSON.
pub data Status : Type 0 where
  not_given : Bytes → Status
  failed_app : Bytes → Bytes → Status
  still_runs : Status
  finish : Bytes → Status
  other : Status

pub data Wait : Type 0 where
  tick : Status → Wait
  ended : Wait

-- An error, if there is one, and the status that is kept, if there is one.
abbrev pub AppEnd : Type 0
AppEnd = Option Bytes × Option Bytes

-- The loop; `none` where the run still waits. At the end of the context, fifteen seconds after the
-- start at the latest, it asks an error that is nil for its kind, so it gives no error.
unfoldable pub wait_for_app : List Wait → Option AppEnd
wait_for_app [] = none
wait_for_app (ended ∷ l) = some (none, none)
wait_for_app (tick (not_given e) ∷ l) = some (some e, none)
wait_for_app (tick (failed_app message json) ∷ l) =
    some (some (codes "app restore status is error, msg: " ++ message), some json)
wait_for_app (tick still_runs ∷ l) = wait_for_app l
wait_for_app (tick other ∷ l) = wait_for_app l
wait_for_app (tick (finish json) ∷ l) = some (none, some json)

abbrev pub started : Result Bytes (Unit {0}) → Option AppEnd → Option AppEnd
started (err e) later = some (some e, none)
started (ok u) later = later

unfoldable pub ready_for_restore_app : Bool → Result Bytes (Unit {0}) → List Wait → Option AppEnd
unfolding wait_for_app
ready_for_restore_app is_app start l =
    if not is_app then some (none, none) else started start (wait_for_app l)
