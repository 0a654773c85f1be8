-- ===== src/Repo/Space.antt =====
-- Addresses of the space: what is read from them, and when reading them panics.
use backup_server.Base.{
  ℕ, ◌≡◌, ◌≢◌, ◌↔◌, ◌∙◌, refl, ap, Bool, true, ◌&&◌, ◌||◌, List, [], ◌∷◌, ◌++◌, leb, length, get_or,
  Result, ok, err, ◌>>=◌, arith, All, Bool-cases, inl, inr,
}
use backup_server.Base.Bytes.{Bytes, codes, bytes_eq, split, join}
use backup_server.Base.Bytes.Laws.{
  Lacks, lacks-Lacks, split-join, split-append, split_lacking, trim_prefix-append,
}
use backup_server.Repo.{
  RepositoryInfo, Failure, invalid, panicked, get_suffix, second, path_parts, format_space,
}

get_suffix-panics : (c : Bytes) (s : ℕ) → get_suffix c s ≢ err panicked
unfolding get_suffix
get_suffix-panics c s = go (split c s)
  where
    go :
        (l : List Bytes)
        → (elim l [
          | [] ↦ err invalid
          | a ∷ l ↦ elim l [ [] ↦ err invalid | b ∷ m ↦ elim m [ [] ↦ ok b | x ∷ n ↦ err invalid ] ]
        ])
          ≢ err panicked
    go [] h = cc
    go (a ∷ []) h = cc
    go (a ∷ b ∷ []) h = cc
    go (a ∷ b ∷ x ∷ n) h = cc

then-panics :
    (r : Result Failure Bytes) (f : Bytes → RepositoryInfo)
    → r ≢ err panicked
    → (r >>= λ x. ok (f x)) ≢ err panicked
then-panics (ok x) f h e = cc
then-panics (err y) f h e = h (ground arith)

second-panics :
    (l : List Bytes) (k : Bytes → Result Failure RepositoryInfo)
    → ((b : Bytes) → k b ≢ err panicked)
    → ((second l >>= k) ≡ err panicked) ↔ (leb (length l) 1 ≡ true)
second-panics [] k h = (λ e. refl, λ e. refl)
second-panics (a ∷ []) k h = (λ e. refl, λ e. refl)
second-panics (a ∷ b ∷ l) k h = (λ e. absurd (h b e), λ e. ground arith)

-- The hosts that are accepted: four parts, of which the first is "cos" or "s3".
abbrev pub accepted : Bytes → Bool
accepted host =
    let hosts = split host b'.' in
    (leb 4 (length hosts) && leb (length hosts) 4)
    && (bytes_eq (get_or hosts 0 []) (codes "cos") || bytes_eq (get_or hosts 0 []) (codes "s3"))

-- Reading the address of a space panics exactly when its host is accepted and its path has no
-- second part.
pub format_space_panics :
    (schema host path : Bytes)
    → (format_space schema host path ≡ err panicked)
      ↔ ((accepted host && leb (length (path_parts path)) 1) ≡ true)
unfolding format_space
format_space_panics schema host path =
    let hosts = split host b'.' in
    elim (Bool-cases (leb 4 (length hosts) && leb (length hosts) 4)) [
      | inr n ↦ rw n (λ e. cc, λ e. cc)
      | inl y ↦
          elim (Bool-cases (
            bytes_eq (get_or hosts 0 []) (codes "cos")
            || bytes_eq (get_or hosts 0 []) (codes "s3"))) [
              | inr n ↦ rw (y, n) (λ e. cc, λ e. cc)
              | inl z ↦
                  rw (y, z)
                    (second-panics (path_parts path) _
                      (λ b. then-panics (get_suffix b b'-') _ (get_suffix-panics b b'-')))
            ]
    ]

get_suffix-append :
    (a b : Bytes) → Lacks b'-' a → Lacks b'-' b → get_suffix (a ++ b'-' ∷ b) b'-' ≡ ok b
unfolding get_suffix
get_suffix-append a b ha hb =
    rw (split-append a b b'-' ha, split_lacking b b'-' hb, get_suffix) refl

-- The parts of an address of the space on S3 are read back from it, when no part holds a
-- separator: the region, the bucket, the part behind the dash and the path behind the bucket.
pub format_space_reads :
    (schema region d t bucket a b : Bytes) (ps : List Bytes)
    → All (Lacks b'.') (region ∷ d ∷ t ∷ [])
    → All (Lacks b'/') (bucket ∷ (a ++ b'-' ∷ b) ∷ ps)
    → Lacks b'-' a
    → Lacks b'-' b
    → format_space schema
        (join (codes "s3" ∷ region ∷ d ∷ t ∷ []) b'.')
        (b'/' ∷ join (bucket ∷ (a ++ b'-' ∷ b) ∷ ps) b'/')
      ≡ ok (record {
        region = region;
        bucket = bucket;
        prefix = join ((a ++ b'-' ∷ b) ∷ ps) b'/';
        endpoint =
            schema
            ++ (codes "://s3."
                ++ (region
                    ++ (codes ".amazonaws.com/" ++ (bucket ++ join ((a ++ b'-' ∷ b) ∷ ps) b'/'))));
        suffix = b;
      })
unfolding format_space
format_space_reads schema region d t bucket a b ps hosts parts ha hb =
    let host =
      split-join (codes "s3") (region ∷ d ∷ t ∷ []) b'.'
        (lacks-Lacks (codes "s3") b'.' refl, hosts) in
    let path =
      ap (λ s. split s b'/')
        (trim_prefix-append (b'/' ∷ []) (join (bucket ∷ (a ++ b'-' ∷ b) ∷ ps) b'/'))
      ∙ split-join bucket ((a ++ b'-' ∷ b) ∷ ps) b'/' parts in
    rw (host, path, get_suffix-append a b ha hb) refl
