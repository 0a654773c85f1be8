-- ===== src/BackupRun/Rounds.antt =====
-- When the loop of a backup to the space ends.
use backup_server.Base.{
  replicate, ℕ, zero, suc, ◌+◌, ◌≤◌, ◌<◌, ◌≡◌, ◌≢◌, ◌⊎◌, refl, String, Bool, true, false, none,
  some, ◌∷◌, Dict, get, Result, ok, err, arith, Option-cases, inl, inr,
}
use backup_server.Base.Bytes.{Bytes, codes, contains}
use backup_server.Tokens.{SpaceToken, TokenError, is_expired}
use backup_server.Tokens.Cached.{served}
use backup_server.BackupRun.Space.{
  check_cloud_storage_quota_and_permission, RunError, check_usage, Summary, Upload, uploaded,
  upload_failed, Round, asks_usage, uploads, Rest, after_upload, with_usage, with_token, go_on,
  one_round, rounds, backup_to_space,
}

-- The upload succeeds, or fails with an error that does not ask for another token.
abbrev pub IsLast : Upload → Type 0
IsLast u =
    ((s : Summary) × (storage : Bytes) × (u ≡ uploaded s storage))
    ⊎ ((text : Bytes) × (u ≡ upload_failed text)
        × (contains text (codes "refresh-token error") ≡ false))

after_last : (u : Upload) → IsLast u → after_upload u ≢ none
after_last u (inl (s, storage, e)) = rw e (λ k. cc)
after_last u (inr (text, e, n)) = rw (e, n) (λ k. cc)

with_usage-ends :
    (x : Result RunError (Unit {0})) (r : Round) (t : SpaceToken) (cache : Dict SpaceToken)
    → after_upload (r.upload t) ≢ none
    → (with_usage x r t cache).ended ≢ none
with_usage-ends (err e) r t cache h = λ k. cc
with_usage-ends (ok u) r t cache h = h

with_token-ends :
    (size : ℕ) (compared : Bool) (r : Round) (x : Result TokenError SpaceToken × Dict SpaceToken)
    → ((t : SpaceToken) → after_upload (r.upload t) ≢ none)
    → (with_token size compared r x).ended ≢ none
with_token-ends size compared r (err e, cache) h = λ k. cc
with_token-ends size true r (ok t, cache) h = h t
with_token-ends size false r (ok t, cache) h =
    with_usage-ends (check_usage size (check_cloud_storage_quota_and_permission r.usage)) r t cache
      (h t)

go_on-ends_first : (r later : Rest) → r.ended ≢ none → (go_on r later).ended ≢ none
go_on-ends_first r later h = elim (Option-cases r.ended) [
  | inl e ↦ absurd (h e)
  | inr a ↦ rw (a.1) (λ k. cc)
]

go_on-ends_later : (r later : Rest) → later.ended ≢ none → (go_on r later).ended ≢ none
go_on-ends_later r later h = elim (Option-cases r.ended) [
  | inl e ↦ rw (e) h
  | inr a ↦ rw (a.1) (λ k. cc)
]

module _ (name : String) (size : ℕ) (round : ℕ → Round) where
  rounds_end :
      (n k j : ℕ) (compared : Bool) (cache : Dict SpaceToken)
      → k + n ≡ j
      → ((t : SpaceToken) → after_upload ((round j).upload t) ≢ none)
      → (rounds name size round (suc n) k compared cache).ended ≢ none
  unfolding rounds
  rounds_end zero k j compared cache e h =
      let here : k ≡ j = omega arith in
      go_on-ends_first (one_round name size round k compared cache) _
        (unfold one_round in with_token-ends size compared (round k) _ (rw here h))
  rounds_end (suc n) k j compared cache e h =
      let r = one_round name size round k compared cache in
      go_on-ends_later r (rounds name size round (suc n) (suc k) true r.cache)
        (rounds_end n (suc k) j true r.cache (omega arith) h)

  -- The loop of a backup to the space has ended after round n when the upload of that round, with
  -- whatever token, succeeds or fails with an error that does not ask for another token.
  pub space_ends :
      (n : ℕ) (cache : Dict SpaceToken)
      → ((t : SpaceToken) → IsLast ((round n).upload t))
      → (backup_to_space name size round (suc n) cache).ended ≢ none
  unfolding backup_to_space
  space_ends n cache h =
      rounds_end n 0 n false cache (omega arith) (λ t. after_last ((round n).upload t) (h t))

module _ (name : String) (size : ℕ) (round : ℕ → Round) (t : SpaceToken) (cache : Dict SpaceToken)
    (held : get cache name ≡ some t) where
  -- While the token of the cache is not expired and its uploads want another token.
  pub record Refused (n : ℕ) : Type 0 where
    pub fresh : (k : ℕ) → k < n → is_expired (round k).now t ≡ false
    pub refused : (k : ℕ) → k < n → after_upload ((round k).upload t) ≡ none

  again :
      (n fuel k : ℕ)
      → k + fuel ≤ n
      → Refused n
      → rounds name size round fuel k true cache
        ≡ record { ended = none; cache = cache; calls = replicate fuel (uploads t) }
  unfolding rounds one_round
  again n zero k le h = refl
  again n (suc fuel) k le h =
      let given =
        served (round k).now name (round k).token cache t held (h.fresh k (omega arith)) in
      rw (given, h.refused k (omega arith), again n fuel (suc k) (omega arith) h) refl

  -- As long as the token in the cache is not expired, an upload that wants another token is tried
  -- again with the same one: n rounds are n uploads with it, and the loop has not ended. The usage
  -- is asked once, before the first.
  pub same_token_again :
      (n : ℕ)
      → Refused (suc n)
      → check_usage size (check_cloud_storage_quota_and_permission (round 0).usage) ≡ ok tt
      → backup_to_space name size round (suc n) cache
        ≡ record { ended = none; cache = cache; calls = asks_usage ∷ replicate (suc n) (uploads t) }
  unfolding backup_to_space rounds one_round
  same_token_again n h room =
      let given =
        served (round 0).now name (round 0).token cache t held (h.fresh 0 (omega arith)) in
      rw (given, with_token, room, h.refused 0 (omega arith), again (suc n) n 1 (omega arith) h)
        refl
