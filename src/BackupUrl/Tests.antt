-- ===== src/BackupUrl/Tests.antt =====
-- Links and tags that are written out.
use backup_server.Base.{◌+◌, ◌-◌, ◌≡◌, refl, some, List, [], ◌∷◌, ◌++◌, map, All, true, err, arith}
use backup_server.Base.Bytes.{trim_prefix, Bytes, codes, trim_right}
use backup_server.Base.Bytes.Laws.{Lacks, lacks-Lacks}
use backup_server.Repo.{panicked}
use backup_server.BackupUrl.{link_text, parse_restore_backup_url_detail}
use backup_server.BackupUrl.Fixture.{id, name, text, link_of, outside, detail, text_accepted}
use backup_server.BackupUrl.Names.{is_id, split_path}
use backup_server.BackupUrl.Split.{split_path-join, OneLine}
use backup_server.BackupUrl.Tags.{get_backup_type_file_path}
use backup_server.BackupUrl.Tagged.{tag, file_path_back}
use backup_server.BackupUrl.Parsed.{Says, accepted_link}

accepted_link_example : Says outside text detail
accepted_link_example = accepted_link outside text detail text_accepted

slashes_go : outside.parse (link_text (codes "/")) ≡ some (link_of [])
unfolding trim_right trim_prefix
slashes_go = refl

slashes_panic : parse_restore_backup_url_detail outside (codes "/") ≡ err panicked
unfolding parse_restore_backup_url_detail trim_right trim_prefix
slashes_panic = refl

is_an_id : is_id id ≡ true
unfolding is_id
is_an_id = refl

one_line : OneLine name
one_line = lacks-Lacks name 10 refl

split_path-join_example : split_path (name ++ b'-' ∷ id) ≡ some (name, id)
split_path-join_example = split_path-join name id one_line is_an_id

abbrev shift : Bytes → Bytes
shift = map (λ c. c + 1)

abbrev unshift : Bytes → Bytes
unshift = map (λ c. c - 1)

unshift-shift : (p : Bytes) → unshift (shift p) ≡ p
unshift-shift [] = refl
unshift-shift (c ∷ p) = rw (unshift-shift p) (ground arith)

shift-nil : (p : Bytes) → shift p ≡ [] → p ≡ []
shift-nil [] h = refl
shift-nil (c ∷ p) h = cc

abbrev pairs : List (Bytes × Bytes)
pairs =
    (codes "backup-type", codes "file") ∷ (codes "backup-path", shift (codes "/Files/Home/")) ∷ []

keys_lack : All (λ x. Lacks b'=' x.0) pairs
keys_lack =
    (lacks-Lacks (codes "backup-type") b'=' refl, (lacks-Lacks (codes "backup-path") b'=' refl, tt))

file_path_back_example :
    get_backup_type_file_path (λ s. some (unshift s)) (map tag pairs) ≡ codes "/Files/Home/"
file_path_back_example =
    file_path_back shift (λ s. some (unshift s)) (λ p. rw (unshift-shift p) refl) shift-nil pairs
      (codes "/Files/Home/") keys_lack refl
