-- ===== src/BackupUrl/Tagged.antt =====
-- The tags of a snapshot give what was written into them.
use backup_server.Base.{
  ◌≡◌, refl, sym, ◌∙◌, ap, Option, none, some, List, [], ◌∷◌, ◌++◌, map, All, if◌then◌else◌,
}
use backup_server.Base.Bytes.{Bytes, codes, bytes_eq, cut}
use backup_server.Base.Bytes.Laws.{Lacks, cut-append}
use backup_server.BackupUrl.Tags.{find_tag, or_default, decoded, get_backup_type_file_path}

-- key=value
abbrev pub tag : Bytes × Bytes → Bytes
tag (k, v) = k ++ b'=' ∷ v

-- The value of the first pair with the key.
abbrev pub first_value : Bytes → List (Bytes × Bytes) → Option Bytes
first_value key [] = none
first_value key ((k, v) ∷ l) = if bytes_eq k key then some v else first_value key l

by_cut :
    (key t : Bytes) (tags : List Bytes) (k v : Bytes)
    → cut t (codes "=") ≡ some (k, v)
    → find_tag key (t ∷ tags) ≡ (if bytes_eq k key then some v else find_tag key tags)
unfolding find_tag
by_cut key t tags k v h = rw (h, find_tag) refl

-- The tags made of pairs whose keys hold no = give the first value of a key, whatever the values hold.
pub find_tag-map :
    (key : Bytes) (l : List (Bytes × Bytes))
    → All (λ p. Lacks b'=' p.0) l
    → find_tag key (map tag l) ≡ first_value key l
unfolding find_tag
find_tag-map key [] h = refl
find_tag-map key ((k, v) ∷ l) h =
    by_cut key (k ++ b'=' ∷ v) (map tag l) k v (cut-append k v b'=' h.0)
    ∙ ap (λ x. if bytes_eq k key then some v else x) (find_tag-map key l h.1)

decoded-some :
    (decode : Bytes → Option Bytes) (s p : Bytes)
    → decode s ≡ some p
    → (s ≡ [] → p ≡ [])
    → decoded decode s ≡ p
decoded-some decode [] p h k = sym (k refl)
decoded-some decode (c ∷ s) p h k = rw h refl

-- Tags made of pairs whose keys hold no = give the path of the backup back, when it was written,
-- encoded, as the first value of backup-path; what decodes is taken to undo what encodes, and
-- only the empty path to be encoded as nothing.
pub file_path_back :
    (encode : Bytes → Bytes) (decode : Bytes → Option Bytes)
    → ((p : Bytes) → decode (encode p) ≡ some p)
    → ((p : Bytes) → encode p ≡ [] → p ≡ [])
    → (l : List (Bytes × Bytes)) (p : Bytes) → All (λ x. Lacks b'=' x.0) l
    → first_value (codes "backup-path") l ≡ some (encode p)
    → get_backup_type_file_path decode (map tag l) ≡ p
unfolding get_backup_type_file_path
file_path_back encode decode undoes some_text l p keys first =
    let found : find_tag (codes "backup-path") (map tag l) ≡ some (encode p) =
      find_tag-map (codes "backup-path") l keys ∙ first in
    ap (λ x. decoded decode (or_default [] x)) found
    ∙ decoded-some decode (encode p) p (undoes p) (some_text p)
