-- ===== src/BackupUrl/Tags.antt =====
-- The tags of a snapshot in a repository: `GetBackupTypeFromTags`, `GetBackupTypeAppName` and
-- `GetBackupTypeFilePath` of pkg/handlers/helper.go. Base64decode is an argument, which is `none`
-- where it fails.
use backup_server.Base.{Option, none, some, List, [], ◌∷◌, if◌then◌else◌}
use backup_server.Base.Bytes.{Bytes, codes, bytes_eq, cut}

-- The loop: the value behind the first = of the first tag whose text before it is the key.
unfoldable pub find_tag : Bytes → List Bytes → Option Bytes
find_tag key [] = none
find_tag key (tag ∷ tags) =
    let later = find_tag key tags in
    elim (cut tag (codes "=")) [
      | none ↦ later
      | some (k, v) ↦ (if bytes_eq k key then some v else later)
    ]

abbrev pub or_default : Bytes → Option Bytes → Bytes
or_default d none = d
or_default d (some v) = v

unfoldable pub get_backup_type_from_tags : List Bytes → Bytes
unfolding find_tag
get_backup_type_from_tags tags = or_default (codes "file") (find_tag (codes "backup-type") tags)

-- A value is decoded where it is not empty.
abbrev pub decoded : (Bytes → Option Bytes) → Bytes → Bytes
decoded decode [] = []
decoded decode (c ∷ s) = or_default [] (decode (c ∷ s))

unfoldable pub get_backup_type_app_name : (Bytes → Option Bytes) → List Bytes → Bytes
unfolding find_tag
get_backup_type_app_name decode tags =
    decoded decode (or_default [] (find_tag (codes "backup-app-type-name") tags))

unfoldable pub get_backup_type_file_path : (Bytes → Option Bytes) → List Bytes → Bytes
unfolding find_tag
get_backup_type_file_path decode tags =
    decoded decode (or_default [] (find_tag (codes "backup-path") tags))
