-- ===== src/Tokens/Tests.antt =====
-- Concrete tokens and accounts.
use backup_server.Base.{
  ◌≡◌, refl, false, Option, some, List, [], ◌∷◌, ok, err, get, put, if◌then◌else◌,
}
use backup_server.Base.Bytes.{
  Bytes, codes, split, contains, bytes_eq, has_prefix, trim_prefix, trim_right, join,
}
use backup_server.Repo.{Url, format_s3, format_s3_host}
use backup_server.Tokens.{
  SpaceToken, ListedAccount, CloudToken, is_expired, fetch, expired, get_integration_space_token,
  same_store, choose, get_integration_cloud_account,
}
use backup_server.Tokens.Chosen.{ForStore}

abbrev fresh : SpaceToken
fresh = record { did = "did:alice"; access_token = "t1"; expires_at = 100000 }

-- The token ends 15 seconds before the time that is written in it.
ends_early :
    get_integration_space_token 85001 "alice" (some fresh) [] ≡ (err expired, ("alice", fresh) ∷ [])
unfolding get_integration_space_token fetch is_expired get put
ends_early = refl

is_given : (get_integration_space_token 50000 "alice" (some fresh) []).0 ≡ ok fresh
unfolding get_integration_space_token fetch is_expired get put
is_given = refl

still_good : is_expired 85000 fresh ≡ false
unfolding is_expired
still_good = refl

abbrev account : Bytes → ListedAccount
account name = record { type_ = codes "awss3"; name = name }

abbrev two_accounts : List ListedAccount
two_accounts = account (codes "k1") ∷ account (codes "k2") ∷ []

-- The URL of an address that is written as its host, with the path /b.
abbrev parse : Bytes → Option Url
parse host = some (record { scheme = codes "https"; host = host; path = codes "/b" })

abbrev token_at : Bytes → Bytes → CloudToken
token_at name host = record { access_key = name; endpoint = host }

abbrev token_of : Bytes → Option CloudToken
token_of name =
    if bytes_eq name (codes "k1")
    then some (token_at (codes "k1") (codes "s3.us.amazonaws.com"))
    else some (token_at (codes "k2") (codes "s3.eu.amazonaws.com"))

abbrev asked : Bytes
asked = codes "s3.eu.amazonaws.com"

second_fits :
    ForStore token_of
      (same_store parse (codes "awss3") asked)
      (codes "awss3")
      (account (codes "k2"))
unfolding same_store format_s3 split trim_prefix contains has_prefix trim_right
second_fits = record {
  chosen = refl;
  token = token_at (codes "k2") asked;
  given = refl;
  matches = refl;
}

second_given :
    get_integration_cloud_account (some two_accounts) token_of parse (codes "awss3") asked
    ≡ ok (token_at (codes "k2") asked)
unfolding get_integration_cloud_account choose same_store format_s3 format_s3_host contains split
    trim_prefix trim_right join has_prefix
second_given = refl

-- A store that no account has is answered with the token of the last account.
no_match_given :
    get_integration_cloud_account
      (some two_accounts)
      token_of
      parse
      (codes "awss3")
      (codes "s3.cn.amazonaws.com")
    ≡ ok (token_at (codes "k2") asked)
unfolding get_integration_cloud_account choose same_store format_s3 format_s3_host contains split
    trim_prefix trim_right join has_prefix
no_match_given = refl
