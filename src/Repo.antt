-- ===== src/Repo.antt =====
-- Addresses of repositories: pkg/util/repo/repo.go, with `GetSuffix` of pkg/util/util.go. What
-- url.Parse finds in a text is an argument.
pub mod Styles
pub mod S3
pub mod Space
mod Tests
use backup_server.Base.{
  ℕ, zero, suc, ◌+◌, ◌-◌, String, Bool, true, false, not, ◌&&◌, ◌||◌, Option, none, some, List, [],
  ◌∷◌, ◌++◌, ltb, leb, length, get_or, drop, if◌then◌else◌, Result, ok, err, ◌>>=◌, ◌>>◌, check,
}
use backup_server.Base.Bytes.{
  Bytes, codes, bytes_eq, split, join, cut, has_prefix, trim_prefix, trim_right,
}

pub record RepositoryInfo : Type 0 where
  pub region : Bytes
  pub bucket : Bytes
  pub prefix : Bytes
  pub endpoint : Bytes
  pub suffix : Bytes

-- An error that is returned, or an index that is out of range.
pub data Failure : Type 0 where
  invalid panicked : Failure

-- The parts of a URL that are looked at.
pub record Url : Type 0 where
  pub scheme : Bytes
  pub host : Bytes
  pub path : Bytes

-- What stands behind the only `s` of a text.
unfoldable pub get_suffix : Bytes → ℕ → Result Failure Bytes
get_suffix c s = elim (split c s) [
  | [] ↦ err invalid
  | a ∷ l ↦ elim l [ [] ↦ err invalid | b ∷ m ↦ elim m [ [] ↦ ok b | x ∷ n ↦ err invalid ] ]
]

-- pt[1]
abbrev pub second : List Bytes → Result Failure Bytes
second [] = err panicked
second (a ∷ []) = err panicked
second (a ∷ b ∷ l) = ok b

abbrev pub path_parts : Bytes → List Bytes
path_parts path = split (trim_prefix path (b'/' ∷ [])) b'/'

abbrev pub space_endpoint : Bytes → Bytes → Bytes → Bytes → Bytes → Bytes
space_endpoint schema kind region bucket prefix =
    if bytes_eq kind (codes "s3")
    then schema ++ (codes "://s3." ++ (region ++ (codes ".amazonaws.com/" ++ (bucket ++ prefix))))
    else schema ++ (codes "://cos." ++ (region ++ (codes ".myqcloud.com/" ++ (bucket ++ prefix))))

-- The host has four parts, of which the first is the kind of the store and the second the region.
unfoldable pub format_space : Bytes → Bytes → Bytes → Result Failure RepositoryInfo
unfolding get_suffix
format_space schema host path =
    let hosts = split host b'.' in
    let kind = get_or hosts 0 [] in
    let region = get_or hosts 1 [] in
    let pt = path_parts path in
    let bucket = get_or pt 0 [] in
    let prefix = join (drop 1 pt) b'/' in
    do
      check (leb 4 (length hosts) && leb (length hosts) 4) invalid
      check (bytes_eq kind (codes "cos") || bytes_eq kind (codes "s3")) invalid
      part ← second pt
      suffix ← get_suffix part b'-'
      ok (record {
        region = region;
        bucket = bucket;
        prefix = prefix;
        endpoint = space_endpoint schema kind region bucket prefix;
        suffix = suffix;
      })

abbrev pub is_empty : Bytes → Bool
is_empty [] = true
is_empty (c ∷ s) = false

abbrev pub cos_endpoint : Bytes → Bytes → Bytes → Bytes → Bytes
cos_endpoint schema region bucket prefix =
    let server = schema ++ (codes "://cos." ++ (region ++ (codes ".myqcloud.com/" ++ bucket))) in
    if is_empty prefix then server else server ++ b'/' ∷ trim_right prefix b'/'

abbrev cos_info : Bytes → Bytes → Bytes → Bytes → RepositoryInfo
cos_info schema region bucket prefix = record {
  region = region;
  bucket = bucket;
  prefix = prefix;
  endpoint = cos_endpoint schema region bucket prefix;
  suffix = [];
}

-- A host of four parts has the bucket in the path, one of five has it in the host.
unfoldable pub format_cos : Bytes → Bytes → Bytes → Result Failure RepositoryInfo
format_cos schema host path =
    let hosts = split host b'.' in
    let pt = path_parts path in
    let four = leb (length hosts) 4 in
    let prefix =
      (if four
        then (if ltb 1 (length pt) then join (drop 1 pt) b'/' else [])
        else if ltb 0 (length pt)
        then join pt b'/'
        else []) in
    let bucket = (if four then get_or pt 0 [] else get_or hosts 0 []) in
    let region = (if four then get_or hosts 1 [] else get_or hosts 2 []) in
    check (leb 4 (length hosts) && leb (length hosts) 5) invalid
    >> ok (cos_info schema region bucket prefix)

-- `none` is an error of url.Parse.
unfoldable pub format_cos_by_raw_url : Option Url → Result Failure RepositoryInfo
format_cos_by_raw_url none = err invalid
format_cos_by_raw_url (some u) =
    let hosts = split u.host b'.' in
    let pt = path_parts u.path in
    let four = leb (length hosts) 4 in
    let prefix = (if four then join (drop 1 pt) b'/' else join pt b'/') in
    let bucket = (if four then get_or pt 0 [] else get_or hosts 0 []) in
    let region = (if four then get_or hosts 1 [] else get_or hosts 2 []) in
    check (leb 4 (length hosts) && leb (length hosts) 5) invalid
    >> ok (cos_info u.scheme region bucket prefix)

abbrev s3_info : Bytes → Bytes → Bytes → RepositoryInfo
s3_info region bucket prefix =
    let server = codes "s3:https://s3." ++ (region ++ (codes ".amazonaws.com/" ++ bucket)) in
    let endpoint = (if is_empty prefix then server else server ++ b'/' ∷ trim_right prefix b'/') in
    record {
      region = region;
      bucket = bucket;
      prefix = prefix;
      endpoint = trim_right endpoint b'/';
      suffix = [];
    }

-- SplitN(path, "/", 2): the bucket and the rest.
unfoldable pub split_2 : Bytes → Bytes × Bytes
split_2 path = elim (cut path (b'/' ∷ [])) [ none ↦ (path, []) | some (a, b) ↦ (a, b) ]

unfoldable pub format_s3_host : Bytes → List Bytes → Bytes → Result Failure RepositoryInfo
unfolding split_2
format_s3_host host parts path =
    if has_prefix host (codes "s3.")
    then (let (bucket, prefix) = split_2 path in
        if ltb (length parts) 4
        then err invalid
        else if is_empty bucket
        then err invalid
        else ok (s3_info (get_or parts 1 []) bucket prefix))
    else if leb 5 (length parts) && bytes_eq (get_or parts 1 []) (codes "s3")
    then ok (s3_info (get_or parts 2 []) (get_or parts 0 []) path)
    else if leb 4 (length parts)
    then ok (s3_info (get_or parts 1 []) (get_or parts 0 []) path)
    else err invalid

unfoldable pub format_s3 : Option Url → Result Failure RepositoryInfo
unfolding format_s3_host
format_s3 none = err invalid
format_s3 (some u) =
    let path = trim_prefix u.path (b'/' ∷ []) in
    let parts = split u.host b'.' in
    let n = length parts in
    if ltb n 3
      || not (bytes_eq (get_or parts (n - 2) []) (codes "amazonaws"))
      || not (bytes_eq (get_or parts (n - 1) []) (codes "com"))
    then err invalid
    else format_s3_host u.host parts path
