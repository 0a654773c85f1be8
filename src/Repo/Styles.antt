-- ===== src/Repo/Styles.antt =====
-- The two ways to write the address of a store: with the bucket in the host and with the bucket in
-- the path.
use backup_server.Base.{
  ◌≡◌, ◌∙◌, refl, ap, some, List, [], ◌∷◌, ◌++◌, ltb, length, drop, if◌then◌else◌, arith,
}
use backup_server.Base.Bytes.{Bytes, codes, split, join}
use backup_server.Base.Bytes.Laws.{Lacks, split-join, split-append, lacks-Lacks, trim_prefix-append}
use backup_server.Repo.{Url, path_parts, format_cos, format_cos_by_raw_url}

prefix_four :
    (pt : List Bytes)
    → join (drop 1 pt) b'/' ≡ (if ltb 1 (length pt) then join (drop 1 pt) b'/' else [])
unfolding join
prefix_four [] = refl
prefix_four (a ∷ []) = refl
prefix_four (a ∷ b ∷ l) = ground arith

prefix_five : (pt : List Bytes) → join pt b'/' ≡ (if ltb 0 (length pt) then join pt b'/' else [])
unfolding join
prefix_five [] = refl
prefix_five (a ∷ l) = ground arith

-- The two formatters of a COS address, of a raw URL and of its parts, give the same.
pub raw_url-format_cos :
    (u : Url) → format_cos_by_raw_url (some u) ≡ format_cos u.scheme u.host u.path
unfolding format_cos_by_raw_url format_cos
raw_url-format_cos u =
    rw (← prefix_four (path_parts u.path), ← prefix_five (path_parts u.path)) refl

-- The hosts of a COS store.
abbrev pub cos_host : Bytes → Bytes
cos_host region = join (codes "cos" ∷ region ∷ codes "myqcloud" ∷ codes "com" ∷ []) b'.'

abbrev pub cos_bucket_host : Bytes → Bytes → Bytes
cos_bucket_host bucket region =
    join (bucket ∷ codes "cos" ∷ region ∷ codes "myqcloud" ∷ codes "com" ∷ []) b'.'

split-cos_host :
    (region : Bytes)
    → Lacks b'.' region
    → split (cos_host region) b'.' ≡ codes "cos" ∷ region ∷ codes "myqcloud" ∷ codes "com" ∷ []
split-cos_host region h =
    split-join (codes "cos") (region ∷ codes "myqcloud" ∷ codes "com" ∷ []) b'.' (
      lacks-Lacks (codes "cos") b'.' refl,
      (h, (lacks-Lacks (codes "myqcloud") b'.' refl, (lacks-Lacks (codes "com") b'.' refl, tt))),
    )

split-cos_bucket_host :
    (bucket region : Bytes)
    → Lacks b'.' bucket
    → Lacks b'.' region
    → split (cos_bucket_host bucket region) b'.'
      ≡ bucket ∷ codes "cos" ∷ region ∷ codes "myqcloud" ∷ codes "com" ∷ []
split-cos_bucket_host bucket region hb hr =
    split-join bucket (codes "cos" ∷ region ∷ codes "myqcloud" ∷ codes "com" ∷ []) b'.' (
      hb,
      (
        lacks-Lacks (codes "cos") b'.' refl,
        (hr, (lacks-Lacks (codes "myqcloud") b'.' refl, (lacks-Lacks (codes "com") b'.' refl, tt))),
      ),
    )

path_parts-slash : (p : Bytes) → path_parts (b'/' ∷ p) ≡ split p b'/'
path_parts-slash p = ap (λ s. split s b'/') (trim_prefix-append (b'/' ∷ []) p)

path_parts-bucket :
    (bucket p : Bytes)
    → Lacks b'/' bucket
    → path_parts (b'/' ∷ (bucket ++ b'/' ∷ p)) ≡ bucket ∷ split p b'/'
path_parts-bucket bucket p h = path_parts-slash (bucket ++ b'/' ∷ p) ∙ split-append bucket p b'/' h

-- A COS address has the same bucket, region, prefix and endpoint whether the bucket stands in the
-- host or in the path, when neither it nor the region has a dot and the bucket has no slash.
pub format_cos_styles :
    (schema bucket region p : Bytes)
    → Lacks b'.' bucket
    → Lacks b'.' region
    → Lacks b'/' bucket
    → format_cos schema (cos_bucket_host bucket region) (b'/' ∷ p)
      ≡ format_cos schema (cos_host region) (b'/' ∷ (bucket ++ b'/' ∷ p))
unfolding format_cos
format_cos_styles schema bucket region p hb hr hs =
    rw
      (
        split-cos_bucket_host bucket region hb hr,
        split-cos_host region hr,
        path_parts-slash p,
        path_parts-bucket bucket p hs,
        ← prefix_five (split p b'/'),
        ← prefix_four (bucket ∷ split p b'/'),
      )
      refl
