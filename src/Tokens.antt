-- ===== src/Tokens.antt =====
-- Tokens of the integration service: `GetIntegrationSpaceToken` with its cache and
-- `GetIntegrationCloudAccount` of pkg/integration/integration.go.
pub mod Cached
pub mod Chosen
mod Tests
use backup_server.Base.{
  ℕ, ◌+◌, String, str_eq, Bool, true, false, not, ◌&&◌, Option, none, some, List, [], ◌∷◌, ltb,
  if◌then◌else◌, Dict, get, put, Result, ok, err, ◌>>=◌, ◌>>◌, check,
}
use backup_server.Base.Bytes.{Bytes, codes, bytes_eq, contains}
use backup_server.Repo.{Url, RepositoryInfo, Failure, format_s3, format_cos_by_raw_url}

-- SpaceToken
pub record SpaceToken : Type 0 where
  pub did : String
  pub access_token : String
  pub expires_at : ℕ

pub data TokenError : Type 0 where
  no_answer expired no_account : TokenError
  bad_address : Failure → TokenError

-- Expired at the time `now`, in milliseconds: a token ends 15 seconds early.
unfoldable pub is_expired : ℕ → SpaceToken → Bool
is_expired now t = ltb t.expires_at (now + 15000)

-- What is done without a usable token in the cache: `answer` is what the service gives, and it is
-- stored also where it is expired.
unfoldable pub fetch :
    ℕ
    → String
    → Option SpaceToken
    → Dict SpaceToken
    → Result TokenError SpaceToken × Dict SpaceToken
unfolding is_expired
fetch now name none cache = (err no_answer, cache)
fetch now name (some t) cache = (if is_expired now t then err expired else ok t, put cache name t)

unfoldable pub get_integration_space_token :
    ℕ
    → String
    → Option SpaceToken
    → Dict SpaceToken
    → Result TokenError SpaceToken × Dict SpaceToken
unfolding fetch
get_integration_space_token now name answer cache = elim (get cache name) [
  | none ↦ fetch now name answer cache
  | some t ↦ if not (is_expired now t) then (ok t, cache) else fetch now name answer cache
]

pub record ListedAccount : Type 0 where
  pub type_ : Bytes
  pub name : Bytes

-- IntegrationToken
pub record CloudToken : Type 0 where
  pub access_key : Bytes
  pub endpoint : Bytes

abbrev pub address_of : Result Failure RepositoryInfo → Result TokenError Bytes
address_of (ok i) = ok i.endpoint
address_of (err e) = err (bad_address e)

abbrev pub same_address : Result TokenError Bytes → Result TokenError Bytes → Result TokenError Bool
same_address a b = a >>= λ x. (b >>= λ y. ok (bytes_eq x y))

-- Do the endpoint of a token and the one that is asked for name one store? Only addresses of the
-- two clouds are compared. `parse` is url.Parse.
unfoldable pub same_store :
    (Bytes → Option Url) → Bytes → Bytes → CloudToken → Result TokenError Bool
same_store parse location endpoint t =
    if bytes_eq location (codes "awss3")
    then same_address (address_of (format_s3 (parse t.endpoint)))
        (address_of (format_s3 (parse endpoint)))
    else if bytes_eq location (codes "tencentcloud")
    then same_address (address_of (format_cos_by_raw_url (parse t.endpoint)))
        (address_of (format_cos_by_raw_url (parse endpoint)))
    else ok false

-- Is the account one of the cloud of this location?
abbrev pub of_location : Bytes → ListedAccount → Bool
of_location location a = not (bytes_eq a.type_ (codes "space")) && contains location a.type_

-- What the service answers for one account: no token, or a token and how it compares.
abbrev pub next_step :
    {A : Type 0}
    → Option CloudToken
    → (CloudToken → Result TokenError Bool)
    → (CloudToken → Result TokenError A)
    → (CloudToken → Result TokenError A)
    → Result TokenError A
next_step none same found go_on = err no_answer
next_step (some t) same found go_on = same t >>= λ b. (if b then found t else go_on t)

module _ (token_of : Bytes → Option CloudToken) (same : CloudToken → Result TokenError Bool)
    (location : Bytes) where
  -- The loop over the accounts; `last` is the token that it holds.
  unfoldable pub choose :
      List ListedAccount → Option CloudToken → Result TokenError (Option CloudToken)
  choose [] last = ok last
  choose (a ∷ l) last =
      if of_location location a
      then next_step (token_of a.name) same (λ t. ok (some t)) (λ t. choose l (some t))
      else choose l last

abbrev pub some_token : Option CloudToken → Result TokenError CloudToken
some_token none = err no_account
some_token (some t) = ok t

-- `none` where the accounts cannot be listed.
unfoldable pub get_integration_cloud_account :
    Option (List ListedAccount)
    → (Bytes → Option CloudToken)
    → (Bytes → Option Url)
    → Bytes
    → Bytes
    → Result TokenError CloudToken
get_integration_cloud_account none token_of parse location endpoint = err no_answer
get_integration_cloud_account (some accounts) token_of parse location endpoint =
    choose token_of (same_store parse location endpoint) location accounts none >>= some_token
