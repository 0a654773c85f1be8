-- ===== src/BackupRun/Room.antt =====
-- What a backup to the space needs before its first upload.
use native.Mathlib.Decide.{dec_lt}
use backup_server.Base.{
  leb→le, ℕ, zero, suc, ◌+◌, ◌-◌, ◌^◌, ◌≤◌, ◌<◌, ◌≡◌, ◌≢◌, ◌↔◌, refl, String, Bool, true, false,
  Option, none, some, List, [], ◌∷◌, leb, Dict, Result, ok, err, arith, Bool-cases, Option-cases,
  Result-cases, inl, inr,
}
use backup_server.Tokens.{SpaceToken, TokenError}
use backup_server.BackupRun.Space.{
  Usage, check_cloud_storage_quota_and_permission, RunError, no_usage, free_user, sub_64,
  check_usage, Round, Call, asks_usage, uploads, Rest, with_usage, with_token, go_on, one_round,
  rounds, backup_to_space,
}

sub_64_within : (a b : ℕ) → a < 2 ^ 64 → b ≤ a → sub_64 a b ≡ a - b
sub_64_within a b h k = omega arith

sub_64_wraps : (a b : ℕ) → b < 2 ^ 64 → a < b → sub_64 a b ≡ a + 2 ^ 64 - b
sub_64_wraps a b h k = omega arith

-- There is room for `size` beside `used` in `total`, or `used` is more than `total` and they lie
-- so far apart that the difference in uint64 is at least `size`.
abbrev pub Fits : ℕ → Usage → Type 0
Fits size u =
    (u.usage_size ≤ u.total_size → size + u.usage_size ≤ u.total_size)
    × (u.total_size < u.usage_size → size + u.usage_size ≤ u.total_size + 2 ^ 64)

le→leb : (a b : ℕ) → a ≤ b → leb a b ≡ true
le→leb a b h = ground arith

leb-Fits :
    (size total used : ℕ)
    → total < 2 ^ 64
    → used < 2 ^ 64
    → (leb size (sub_64 total used) ≡ true)
      ↔ ((used ≤ total → size + used ≤ total) × (total < used → size + used ≤ total + 2 ^ 64))
leb-Fits size total used h k = (
  λ e. (
    λ le. omega (arith, leb→le _ _ e, sub_64_within total used h le),
    λ lt. omega (arith, leb→le _ _ e, sub_64_wraps total used k lt),
  ),
  λ f. elim (dec_lt total used) [
    | yes lt ↦ le→leb _ _ (omega (arith, f.1 lt, sub_64_wraps total used k lt))
    | no ge ↦
        let le : used ≤ total = omega (arith, ge) in
        le→leb _ _ (omega (arith, f.0 le, sub_64_within total used h le))
  ],
)

-- A backup is taken to have room exactly when the plan is not the free one, the service lets it
-- back up, and the size fits as `Fits` says.
pub check_usage_lem :
    (size : ℕ) (u : Usage)
    → u.total_size < 2 ^ 64
    → u.usage_size < 2 ^ 64
    → (check_usage size (some u) ≡ ok tt)
      ↔ ((free_user u.plan_level ≡ false) × (u.can_backup ≡ true) × Fits size u)
unfolding check_usage
check_usage_lem size u h k =
    let (to, from) = leb-Fits size u.total_size u.usage_size h k in
    elim (Bool-cases (free_user u.plan_level)) [
      | inl y ↦ rw y ((λ e. cc), λ f. cc)
      | inr n ↦ elim (Bool-cases u.can_backup) [
        | inr m ↦ rw (n, m) ((λ e. cc), λ f. cc)
        | inl y ↦ elim (Bool-cases (leb size (sub_64 u.total_size u.usage_size))) [
          | inl b ↦ rw (n, y, b) ((λ e. (refl, refl, to b)), λ f. refl)
          | inr b ↦ rw (n, y, b) ((λ e. cc), λ f. (let w = from f.2 in cc))
        ]
      ]
    ]

abbrev pub has_upload : List Call → Bool
has_upload [] = false
has_upload (asks_usage ∷ l) = has_upload l
has_upload (uploads t ∷ l) = true

-- A round without room makes no upload and ends the loop.
abbrev Stops : Rest → Type 0
Stops r = (has_upload r.calls ≡ false) × (r.ended ≢ none)

with_usage-Stops :
    (x : Result RunError (Unit {0})) (e : RunError) (r : Round) (t : SpaceToken)
    (cache : Dict SpaceToken)
    → x ≡ err e
    → Stops (with_usage x r t cache)
with_usage-Stops (err d) e r t cache h = (refl, λ k. cc)
with_usage-Stops (ok u) e r t cache h = cc

with_token-Stops :
    (size : ℕ) (e : RunError) (r : Round) (x : Result TokenError SpaceToken × Dict SpaceToken)
    → check_usage size (check_cloud_storage_quota_and_permission r.usage) ≡ err e
    → Stops (with_token size false r x)
with_token-Stops size e r (err d, cache) h = (refl, λ k. cc)
with_token-Stops size e r (ok t, cache) h = with_usage-Stops _ e r t cache h

go_on-Stops : (r later : Rest) → Stops r → has_upload (go_on r later).calls ≡ false
go_on-Stops r later h = elim (Option-cases r.ended) [
  | inl e ↦ absurd (h.1 e)
  | inr a ↦ rw (a.1) h.0
]

-- The usage that lets a backup of this size begin.
abbrev pub Allowed : ℕ → Option Usage → Type 0
Allowed size answer =
    (u : Usage) × (answer ≡ some u)
    × (free_user u.plan_level ≡ false)
    × (u.can_backup ≡ true)
    × Fits size u

allowed :
    (size : ℕ) (answer : Option Usage)
    → ((u : Usage) → answer ≡ some u → (u.total_size < 2 ^ 64) × (u.usage_size < 2 ^ 64))
    → check_usage size answer ≡ ok tt
    → Allowed size answer
allowed size none small h =
    let no : check_usage size none ≡ err no_usage = unfold check_usage in refl in cc
allowed size (some u) small h =
    let (s, t) = small u refl in
    let (plan, can, fits) = (check_usage_lem size u s t).0 h in (u, refl, plan, can, fits)

-- A backup to the space uploads nothing unless the service has answered, in the first round, that
-- the plan is not the free one, that the owner can back up, and that the size fits beside the used
-- part, or that more is used than there is and the difference in uint64 is at least the size. The
-- sizes that it answers are taken to be below 2^64.
pub room_before_upload :
    (name : String) (size : ℕ) (round : ℕ → Round) (fuel : ℕ) (cache : Dict SpaceToken)
    → ((u : Usage)
        → check_cloud_storage_quota_and_permission (round 0).usage ≡ some u
        → (u.total_size < 2 ^ 64) × (u.usage_size < 2 ^ 64))
    → has_upload (backup_to_space name size round fuel cache).calls ≡ true
    → Allowed size (check_cloud_storage_quota_and_permission (round 0).usage)
unfolding backup_to_space rounds
room_before_upload name size round zero cache small h = cc
room_before_upload name size round (suc fuel) cache small h =
    elim (Result-cases
      (check_usage size (check_cloud_storage_quota_and_permission (round 0).usage))) [
        | inl a ↦ allowed size _ small a.1
        | inr e ↦
            let r = one_round name size round 0 false cache in
            let stops : Stops r = unfold one_round in with_token-Stops size e.0 (round 0) _ e.1 in
            let nothing = go_on-Stops r (rounds name size round fuel 1 true r.cache) stops in cc
      ]
