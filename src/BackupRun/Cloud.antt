-- ===== src/BackupRun/Cloud.antt =====
-- `getIntegrationCloud` and `buildLocation` of pkg/storage/storage_backup.go.
use backup_server.Base.{
  String, str_eq, Bool, true, false, not, ◌||◌, Option, none, some, List, [], ◌∷◌, if◌then◌else◌,
}
use backup_server.Base.Bytes.{Bytes, bytes_eq}
use backup_server.Tokens.{CloudToken}

-- The entries of the location that is configured; a missing entry reads as the empty text.
pub record Location : Type 0 where
  pub kind : String
  pub name : Bytes
  pub endpoint : Bytes
  pub path : Bytes

-- IntegrationChanged, IntegrationName and IntegrationEndpoint
pub record Integration : Type 0 where
  pub changed : Bool
  pub name : Bytes
  pub endpoint : Bytes

-- What a loop over tokens finds, where a token that the service did not give is a nil pointer.
pub data Search : Type 0 where
  found : CloudToken → Search
  absent : Search
  follows_nil : Search

unfoldable pub first_token : (CloudToken → Bool) → List (Option CloudToken) → Search
first_token p [] = absent
first_token p (none ∷ l) = follows_nil
first_token p (some t ∷ l) = let rest = first_token p l in if p t then found t else rest

-- The tokens of the accounts; an error of the service is dropped.
unfoldable pub tokens_of : (Bytes → Option CloudToken) → List Bytes → List (Option CloudToken)
tokens_of token_of [] = []
tokens_of token_of (a ∷ l) = token_of a ∷ tokens_of token_of l

pub data Choice : Type 0 where
  chosen : CloudToken → Integration → Choice
  none_chosen : Choice
  panicked : Choice

abbrev pub named : Location → CloudToken → Bool
named l t = bytes_eq t.access_key l.name

abbrev pub placed : Location → CloudToken → Bool
placed l t = bytes_eq t.endpoint l.endpoint

abbrev by_endpoint : Search → Choice
by_endpoint (found t) =
    chosen t (record { changed = true; name = t.access_key; endpoint = t.endpoint })
by_endpoint absent = none_chosen
by_endpoint follows_nil = panicked

-- Where no token has the name, one for the endpoint is taken.
abbrev pub by_name : Integration → Search → Search → Choice
by_name i (found t) second = chosen t (record i { changed = false })
by_name i absent second = by_endpoint second
by_name i follows_nil second = panicked

abbrev pub choose_token : Location → Integration → List (Option CloudToken) → Choice
choose_token l i [] = none_chosen
choose_token l i (t ∷ ts) =
    by_name i (first_token (named l) (t ∷ ts)) (first_token (placed l) (t ∷ ts))

-- `none` where the accounts of the location cannot be listed.
unfoldable pub get_integration_cloud :
    Option (List Bytes) → (Bytes → Option CloudToken) → Location → Integration → Choice
get_integration_cloud none token_of l i = none_chosen
get_integration_cloud (some accounts) token_of l i = choose_token l i (tokens_of token_of accounts)

-- The entry of the location that is stored with the result, if any: its kind, the name and the
-- endpoint.
unfoldable pub build_location : Location → Integration → Option (String × Bytes × Bytes)
build_location l i =
    if not i.changed
    then none
    else if str_eq l.kind "space" || str_eq l.kind "filesystem"
    then none
    else some (l.kind, i.name, i.endpoint)
