-- ===== src/BackupRun/PartTests.antt =====
-- Concrete cases of the parts of a run: tokens, the space, the progress.
use backup_server.Base.{
  inl, ◌<◌, ◌^◌, ◌≡◌, ◌≢◌, ◌↔◌, subst, refl, true, false, Option, none, some, List, [], ◌∷◌,
  if◌then◌else◌, get, put, ok, arith,
}
use backup_server.Base.Bytes.{Bytes, codes, bytes_eq, cut, contains}
use backup_server.Base.Int.{pos}
use backup_server.Tokens.{CloudToken, is_expired, get_integration_space_token, fetch}
use backup_server.BackupRun.Cloud.{Location, Integration, get_integration_cloud}
use backup_server.BackupRun.Space.{
  Usage, upload_failed, Round, free_user, check_usage, check_cloud_storage_quota_and_permission,
  one_round, backup_to_space,
}
use backup_server.BackupRun.Room.{Fits, Allowed, has_upload, check_usage_lem, room_before_upload}
use backup_server.BackupRun.Rounds.{Refused, space_ends}
use backup_server.BackupRun.Chosen.{Promises, chosen_is_stored}
use backup_server.BackupRun.Progress.{Tracker, Callback}
use backup_server.BackupRun.Fixture.{token, usage, good_round}

-- More is used than there is, and the backup is taken to fit.
abbrev overdrawn : Usage
overdrawn = record { plan_level = pos 2; can_backup = true; total_size = 100; usage_size = 101 }

overdrawn_passes : check_usage 1000000 (some overdrawn) ≡ ok tt
unfolding check_usage
overdrawn_passes = refl

check_usage_lem_example :
    (check_usage 80 (some usage) ≡ ok tt)
    ↔ ((free_user usage.plan_level ≡ false) × (usage.can_backup ≡ true) × Fits 80 usage)
check_usage_lem_example = check_usage_lem 80 usage (omega arith) (omega arith)

usage_is_small :
    (u : Usage)
    → check_cloud_storage_quota_and_permission good_round.usage ≡ some u
    → (u.total_size < 2 ^ 64) × (u.usage_size < 2 ^ 64)
unfolding check_cloud_storage_quota_and_permission
usage_is_small u h =
    let same : usage ≡ u = cc in
    subst (λ x. (x.total_size < 2 ^ 64) × (x.usage_size < 2 ^ 64)) same (omega arith)

uploads_once : has_upload (backup_to_space "alice" 70 (λ k. good_round) 1 []).calls ≡ true
unfolding backup_to_space one_round get_integration_space_token fetch is_expired check_usage
    check_cloud_storage_quota_and_permission get put
uploads_once = refl

room_before_upload_example : Allowed 70 (check_cloud_storage_quota_and_permission good_round.usage)
room_before_upload_example =
    room_before_upload "alice" 70 (λ k. good_round) 1 [] usage_is_small uploads_once

space_ends_example : (backup_to_space "alice" 70 (λ k. good_round) 3 []).ended ≢ none
space_ends_example = space_ends "alice" 70 (λ k. good_round) 2 [] (λ t. inl (_, _, refl))

-- Every upload wants another token.
abbrev refusing_round : Round
refusing_round = record good_round { upload = λ t. upload_failed (codes "refresh-token error") }

is_held : get (("alice", token) ∷ []) "alice" ≡ some token
unfolding get
is_held = refl

refused : Refused "alice" 70 (λ k. refusing_round) token (("alice", token) ∷ []) is_held 3
unfolding is_expired contains cut
refused = record { fresh = λ k lt. refl; refused = λ k lt. refl }

room : check_usage 70 (check_cloud_storage_quota_and_permission refusing_round.usage) ≡ ok tt
unfolding check_usage check_cloud_storage_quota_and_permission
room = refl

abbrev to_s3 : Location
to_s3 = record { kind = "awss3"; name = codes "k1"; endpoint = codes "e2"; path = [] }

abbrev before : Integration
before = record { changed = false; name = []; endpoint = [] }

abbrev after : Integration
after = record { changed = true; name = codes "k2"; endpoint = codes "e2" }

-- The configured account is gone, and another one has the endpoint.
abbrev second_token : CloudToken
second_token = record { access_key = codes "k2"; endpoint = codes "e2" }

abbrev token_of : Bytes → Option CloudToken
token_of n = if bytes_eq n (codes "k2") then some second_token else none

chosen_is_stored_example :
    Promises to_s3
      (get_integration_cloud (some (codes "k2" ∷ [])) token_of to_s3 before)
      second_token
      after
chosen_is_stored_example =
    chosen_is_stored (codes "k2" ∷ []) token_of to_s3 before after second_token

abbrev calls : List Callback
calls =
    record { done = false; now = 1000; percent = 40 }
    ∷ record { done = false; now = 2000; percent = 50 }
    ∷ record { done = false; now = 9000000000; percent = 10000 }
    ∷ []

abbrev fresh : Tracker
fresh = record { percent = 0; time = none }
