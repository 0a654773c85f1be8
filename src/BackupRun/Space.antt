-- ===== src/BackupRun/Space.antt =====
-- `backupToSpace` of pkg/storage/storage_backup.go, with `CheckCloudStorageQuotaAndPermission` of
-- pkg/notify/notify.go that it calls.
use backup_server.Base.{
  ℕ, zero, suc, ◌+◌, ◌-◌, ◌%◌, ◌^◌, String, Bool, true, false, not, ◌||◌, Option, none, some, List,
  [], ◌∷◌, ◌++◌, ◌==◌, leb, if◌then◌else◌, Dict, Result, ok, err,
}
use backup_server.Base.Bytes.{Bytes, codes, contains}
use backup_server.Base.Int.{ℤ, pos, negsuc}
use backup_server.Tokens.{SpaceToken, TokenError, get_integration_space_token}

-- UsageData
pub record Usage : Type 0 where
  pub plan_level : ℤ
  pub can_backup : Bool
  pub total_size : ℕ
  pub usage_size : ℕ

-- One answer of the service to the question of the usage: no answer or one that is no JSON of the
-- type, or an answer with its code and its data.
pub data UsageAnswer : Type 0 where
  unanswered : UsageAnswer
  answered : ℕ → Option Usage → UsageAnswer

-- The question is put at most `steps` times, from the answer `i` on.
unfoldable pub ask_usage : ℕ → (ℕ → UsageAnswer) → ℕ → Option Usage
ask_usage zero answer i = none
ask_usage (suc steps) answer i =
    let later = ask_usage steps answer (suc i) in
    elim (answer i) [
      | unanswered ↦ later
      | answered code usage ↦ elim usage [
        | none ↦ later
        | some u ↦ if code == 200 then some u else later
      ]
    ]

unfoldable pub check_cloud_storage_quota_and_permission : (ℕ → UsageAnswer) → Option Usage
unfolding ask_usage
check_cloud_storage_quota_and_permission answer = ask_usage 3 answer 0

pub data RunError : Type 0 where
  no_token : TokenError → RunError
  no_usage not_subscribed no_space : RunError
  upload_error : Bytes → RunError

abbrev pub free_user : ℤ → Bool
free_user (pos n) = n == 1
free_user (negsuc n) = false

-- a - b in uint64
abbrev pub sub_64 : ℕ → ℕ → ℕ
sub_64 a b = (a + 2 ^ 64 - b) % 2 ^ 64

-- Is there room for a backup of this size?
unfoldable pub check_usage : ℕ → Option Usage → Result RunError (Unit {0})
check_usage size none = err no_usage
check_usage size (some u) =
    if free_user u.plan_level
    then err not_subscribed
    else if not u.can_backup || not (leb size (sub_64 u.total_size u.usage_size))
    then err no_space
    else ok tt

-- SummaryOutput, with its JSON.
pub record Summary : Type 0 where
  pub snapshot_id : Bytes
  pub total_bytes_processed : ℕ
  pub restore_size : ℕ
  pub json : Bytes

-- What the backups SDK gives: the summary and the JSON of the storage, or the text of an error.
pub data Upload : Type 0 where
  uploaded : Summary → Bytes → Upload
  upload_failed : Bytes → Upload

-- What the world outside answers in one round of the loop.
pub record Round : Type 0 where
  pub now : ℕ
  pub token : Option SpaceToken
  pub usage : ℕ → UsageAnswer
  pub upload : SpaceToken → Upload

pub data Call : Type 0 where
  asks_usage : Call
  uploads : SpaceToken → Call

abbrev pub Outcome : Type 0
Outcome = Result RunError (Summary × Bytes)

-- What a round leaves: the result, where the loop ends with it, the cache of tokens and the calls.
pub record Rest : Type 0 where
  pub ended : Option Outcome
  pub cache : Dict SpaceToken
  pub calls : List Call

abbrev pub is_refresh : Bytes → Bool
is_refresh text = contains text (codes "refresh-token error")

abbrev pub after_upload : Upload → Option Outcome
after_upload (uploaded s storage) = some (ok (s, storage))
after_upload (upload_failed text) = if is_refresh text then none else some (err (upload_error text))

abbrev try_upload : Round → SpaceToken → Dict SpaceToken → List Call → Rest
try_upload r t cache before = record {
  ended = after_upload (r.upload t);
  cache = cache;
  calls = before ++ uploads t ∷ [];
}

abbrev pub with_usage : Result RunError (Unit {0}) → Round → SpaceToken → Dict SpaceToken → Rest
with_usage (err e) r t cache = record {
  ended = some (err e);
  cache = cache;
  calls = asks_usage ∷ [];
}
with_usage (ok u) r t cache = try_upload r t cache (asks_usage ∷ [])

abbrev pub with_token : ℕ → Bool → Round → Result TokenError SpaceToken × Dict SpaceToken → Rest
with_token size compared r (err e, cache) = record {
  ended = some (err (no_token e));
  cache = cache;
  calls = [];
}
with_token size true r (ok t, cache) = try_upload r t cache []
with_token size false r (ok t, cache) =
    with_usage (check_usage size (check_cloud_storage_quota_and_permission r.usage)) r t cache

-- What is left of a round and, where it does not end the loop, of the later ones.
abbrev pub go_on : Rest → Rest → Rest
go_on r later = elim r.ended [ some e ↦ r | none ↦ record later { calls = r.calls ++ later.calls } ]

module _ (name : String) (size : ℕ) (round : ℕ → Round) where
  -- The round `k`; `compared` says that the usage has been looked at.
  unfoldable pub one_round : ℕ → Bool → Dict SpaceToken → Rest
  one_round k compared cache =
      with_token size compared (round k)
        (get_integration_space_token (round k).now name (round k).token cache)

  -- At most `fuel` rounds from the round `k` on; where none of them ends the loop, `ended` is none.
  unfoldable pub rounds : ℕ → ℕ → Bool → Dict SpaceToken → Rest
  rounds zero k compared cache = record { ended = none; cache = cache; calls = [] }
  rounds (suc fuel) k compared cache =
      let r = one_round k compared cache in go_on r (rounds fuel (suc k) true r.cache)

  unfoldable pub backup_to_space : ℕ → Dict SpaceToken → Rest
  unfolding rounds
  backup_to_space fuel cache = rounds fuel 0 false cache
