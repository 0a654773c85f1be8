-- ===== src/Repo/S3.antt =====
-- The two ways to write the address of an S3 store.
use backup_server.Base.{
  ◌≡◌, ◌≢◌, ◌∙◌, refl, sym, ap, true, false, some, [], ◌∷◌, ◌++◌, get_or, Bool-cases, inl, inr,
}
use backup_server.Base.Bytes.{Bytes, codes, split, join, has_prefix, trim_prefix}
use backup_server.Base.Bytes.Laws.{
  Lacks, lacks-Lacks, split-join, split-append, trim_prefix-append, has_prefix-append,
  has_prefix_sound, cut-append,
}
use backup_server.Repo.{Url, is_empty, split_2, format_s3}

-- The hosts of an S3 store.
abbrev pub s3_host : Bytes → Bytes
s3_host region = join (codes "s3" ∷ region ∷ codes "amazonaws" ∷ codes "com" ∷ []) b'.'

abbrev pub s3_bucket_host : Bytes → Bytes → Bytes
s3_bucket_host bucket region =
    join (bucket ∷ codes "s3" ∷ region ∷ codes "amazonaws" ∷ codes "com" ∷ []) b'.'

split-s3_host :
    (region : Bytes)
    → Lacks b'.' region
    → split (s3_host region) b'.' ≡ codes "s3" ∷ region ∷ codes "amazonaws" ∷ codes "com" ∷ []
split-s3_host region h =
    split-join (codes "s3") (region ∷ codes "amazonaws" ∷ codes "com" ∷ []) b'.' (
      lacks-Lacks (codes "s3") b'.' refl,
      (h, (lacks-Lacks (codes "amazonaws") b'.' refl, (lacks-Lacks (codes "com") b'.' refl, tt))),
    )

split-s3_bucket_host :
    (bucket region : Bytes)
    → Lacks b'.' bucket
    → Lacks b'.' region
    → split (s3_bucket_host bucket region) b'.'
      ≡ bucket ∷ codes "s3" ∷ region ∷ codes "amazonaws" ∷ codes "com" ∷ []
split-s3_bucket_host bucket region hb hr =
    split-join bucket (codes "s3" ∷ region ∷ codes "amazonaws" ∷ codes "com" ∷ []) b'.' (
      hb,
      (
        lacks-Lacks (codes "s3") b'.' refl,
        (
          hr,
          (lacks-Lacks (codes "amazonaws") b'.' refl, (lacks-Lacks (codes "com") b'.' refl, tt)),
        ),
      ),
    )

s3_host-has_prefix : (region : Bytes) → has_prefix (s3_host region) (codes "s3.") ≡ true
s3_host-has_prefix region =
    unfold join in has_prefix-append (codes "s3.") (region ++ b'.' ∷ codes "amazonaws.com")

-- A host that begins with a bucket of another name does not begin with "s3.".
bucket_host-has_prefix :
    (bucket region : Bytes)
    → Lacks b'.' bucket
    → Lacks b'.' region
    → bucket ≢ codes "s3"
    → has_prefix (s3_bucket_host bucket region) (codes "s3.") ≡ false
bucket_host-has_prefix bucket region hb hr other =
    let host = s3_bucket_host bucket region in
    elim (Bool-cases (has_prefix host (codes "s3."))) [
      | inr n ↦ n
      | inl y ↦
          let rest = trim_prefix host (codes "s3.") in
          let parts =
            sym (split-s3_bucket_host bucket region hb hr)
            ∙ ap (λ s. split s b'.') (has_prefix_sound host (codes "s3.") y)
            ∙ split-append (codes "s3") rest b'.' (lacks-Lacks (codes "s3") b'.' refl) in
          absurd (other (ap (λ l. get_or l 0 []) parts))
    ]

split_2-bucket : (bucket p : Bytes) → Lacks b'/' bucket → split_2 (bucket ++ b'/' ∷ p) ≡ (bucket, p)
unfolding split_2
split_2-bucket bucket p h = rw (cut-append bucket p b'/' h, split_2) refl

filled : (bucket : Bytes) → bucket ≢ [] → is_empty bucket ≡ false
filled [] h = absurd (h refl)
filled (c ∷ s) h = refl

abbrev pub url : Bytes → Bytes → Url
url host path = record { scheme = codes "https"; host = host; path = path }

-- An S3 address has the same bucket, region, prefix and endpoint whether the bucket stands in the
-- host or in the path, when the bucket is not empty and not "s3", neither it nor the region has a
-- dot, and the bucket has no slash.
pub format_s3_styles :
    (bucket region p : Bytes)
    → bucket ≢ []
    → bucket ≢ codes "s3"
    → Lacks b'.' bucket
    → Lacks b'.' region
    → Lacks b'/' bucket
    → format_s3 (some (url (s3_bucket_host bucket region) (b'/' ∷ p)))
      ≡ format_s3 (some (url (s3_host region) (b'/' ∷ (bucket ++ b'/' ∷ p))))
unfolding format_s3
format_s3_styles bucket region p some_bucket other hb hr hs =
    rw
      (
        split-s3_bucket_host bucket region hb hr,
        split-s3_host region hr,
        trim_prefix-append (b'/' ∷ []) p,
        trim_prefix-append (b'/' ∷ []) (bucket ++ b'/' ∷ p),
        bucket_host-has_prefix bucket region hb hr other,
        s3_host-has_prefix region,
        split_2-bucket bucket p hs,
        filled bucket some_bucket,
      )
      refl
