-- ===== src/Repo/Tests.antt =====
-- Concrete addresses.
use backup_server.Base.{◌≡◌, refl, [], ◌∷◌, ◌++◌, some, ok, err}
use backup_server.Base.Bytes.{Bytes, codes, split, join, trim_prefix, trim_right}
use backup_server.Base.Bytes.Laws.{lacks-Lacks}
use backup_server.Repo.{panicked, format_space, format_cos, format_s3}
use backup_server.Repo.S3.{url, s3_host, s3_bucket_host, format_s3_styles}
use backup_server.Repo.Styles.{cos_host, cos_bucket_host, format_cos_styles}

cos_endpoint_example :
    format_cos (codes "https") (codes "b1.cos.ap-b.myqcloud.com") (codes "/x/y/")
    ≡ ok (record {
      region = codes "ap-b";
      bucket = codes "b1";
      prefix = codes "x/y/";
      endpoint = codes "https://cos.ap-b.myqcloud.com/b1/x/y";
      suffix = [];
    })
unfolding format_cos split join trim_prefix trim_right
cos_endpoint_example = refl

no_second_part :
    format_space (codes "https") (codes "s3.us.amazonaws.com") (codes "/bucket") ≡ err panicked
unfolding format_space split join trim_prefix
no_second_part = refl

format_cos_styles_example :
    format_cos (codes "https") (cos_bucket_host (codes "b1") (codes "ap-b")) (b'/' ∷ codes "x/y")
    ≡ format_cos
        (codes "https")
        (cos_host (codes "ap-b"))
        (b'/' ∷ (codes "b1" ++ b'/' ∷ codes "x/y"))
format_cos_styles_example =
    format_cos_styles (codes "https") (codes "b1") (codes "ap-b") (codes "x/y")
      (lacks-Lacks (codes "b1") b'.' refl) (lacks-Lacks (codes "ap-b") b'.' refl)
      (lacks-Lacks (codes "b1") b'/' refl)

abbrev space_path : Bytes
space_path = b'/' ∷ join (codes "b1" ∷ (codes "did" ++ b'-' ∷ codes "7f") ∷ codes "r" ∷ []) b'/'

format_s3_styles_example :
    format_s3
      (some (url (s3_bucket_host (codes "photos") (codes "us-east-1")) (codes "/did:key:x/")))
    ≡ format_s3 (some (url (s3_host (codes "us-east-1")) (codes "/photos/did:key:x/")))
format_s3_styles_example =
    format_s3_styles (codes "photos") (codes "us-east-1") (codes "did:key:x/") (λ h. cc) (λ h. cc)
      (lacks-Lacks (codes "photos") b'.' refl) (lacks-Lacks (codes "us-east-1") b'.' refl)
      (lacks-Lacks (codes "photos") b'/' refl)
