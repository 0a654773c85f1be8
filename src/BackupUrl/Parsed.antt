-- ===== src/BackupUrl/Parsed.antt =====
-- What a link that is accepted says, and where it leads.
use backup_server.Base.{
  ◌≡◌, ◌≢◌, refl, str_eq-false, [], subst, String, Bool, true, false, not, Option, none, some, ◌∷◌,
  ◌++◌, ok, bind-ok, ok-same, check-ok,
}
use backup_server.Base.Bytes.{Bytes, codes, cut, contains, trim_prefix, trim_right}
use backup_server.Base.Bytes.Laws.{cut_sound}
use backup_server.Paths.{Roots}
use backup_server.Repo.{RepositoryInfo, invalid, is_empty}
use backup_server.BackupUrl.{
  Link, Outside, BackupUrl, storage_prefix, need, url_type, detail_of, cloud_of, location_of,
  format_endpoint, is_there, parse_backup_url, Detail, get_storage, link_text,
  parse_restore_backup_url_detail,
}
use backup_server.BackupUrl.Names.{is_id, split_path}
use backup_server.BackupUrl.Split.{split_path_sound}

pub need-ok : {A : Type 0} (x : Option A) (a : A) → need x ≡ ok a → x ≡ some a
need-ok none a h = cc
need-ok (some b) a h = cc

-- The path of the link is a path, olares-backups/, and the name and the id, with slashes at the end.
abbrev pub Names : Link → Bytes → Bytes → Type 0
Names l name id =
    (front : Bytes) × (last : Bytes) × (l.url.path ≡ front ++ storage_prefix ++ last)
    × (trim_right last b'/' ≡ name ++ b'-' ∷ id)
    × (is_id id ≡ true)

-- The cloud that the host names, for the space.
abbrev pub OfCloud : String → Bytes → Bytes → Type 0
OfCloud location host cloud =
    (location ≢ "space" → cloud ≡ [])
    × (location ≡ "space" → contains host (codes "amazonaws.com") ≡ true → cloud ≡ codes "aws")
    × (location ≡ "space"
        → contains host (codes "amazonaws.com") ≡ false
        → contains host (codes "myqcloud.com") ≡ true
        → cloud ≡ codes "tencentcloud")

cloud_of-OfCloud :
    (location : String) (host : Bytes) → OfCloud location host (cloud_of location host)
cloud_of-OfCloud location host = (
  λ h. rw (str_eq-false location "space" h) refl,
  λ e y. rw (e, y) refl,
  λ e n y. rw (e, n, y) refl,
)

-- The link of an accepted text: it is understood, its path has the name and the id in it, the
-- endpoint, the region, the bucket, the prefix and the suffix are those of its location, and a
-- directory of the file system is there.
abbrev pub Accepted : Outside → Bytes → BackupUrl → Type 0
Accepted o s b =
    (roots : Roots) × (l : Link) × (i : RepositoryInfo) × (o.roots ≡ some roots)
    × (o.parse s ≡ some l)
    × (location_of l.url ≡ ok b.location)
    × Names l b.backup_name b.backup_id
    × (format_endpoint o b.location l.url.scheme l.url.host l.url.path roots ≡ ok i)
    × (b.endpoint ≡ i.endpoint)
    × (b.region ≡ i.region)
    × (b.bucket ≡ i.bucket)
    × (b.prefix ≡ i.prefix)
    × (b.olares_suffix ≡ i.suffix)
    × OfCloud b.location l.url.host b.cloud_name
    × ((k : Bytes) → b.values k ≡ l.values k)
    × (b.location ≡ "filesystem" → o.exists b.endpoint ≡ true)

not-true : (b : Bool) → not b ≡ true → b ≡ false
not-true true h = cc
not-true false h = refl

there-exists :
    (o : Outside) (location : String) (i : RepositoryInfo)
    → is_there o location i ≡ true
    → location ≡ "filesystem"
    → o.exists i.endpoint ≡ true
there-exists o location i h e = (rw e at h)

parse_backup_url-Accepted :
    (o : Outside) (s : Bytes) (b : BackupUrl) → parse_backup_url o s ≡ ok b → Accepted o s b
unfolding parse_backup_url
parse_backup_url-Accepted o s b h =
    let (roots, roots_ok, h1) = bind-ok (need o.roots) _ b h in
    let (l, l_ok, h2) = bind-ok (need (o.parse s)) _ b h1 in
    let (location, location_ok, h3) = bind-ok (location_of l.url) _ b h2 in
    let (some_path, h4) =
      check-ok (not (is_empty (trim_prefix l.url.path (codes "/")))) invalid _ b h3 in
    let (parts, parts_ok, h5) = bind-ok (need (cut l.url.path storage_prefix)) _ b h4 in
    let (names, names_ok, h6) = bind-ok (need (split_path parts.1)) _ b h5 in
    let (i, i_ok, h7) =
      bind-ok (format_endpoint o location l.url.scheme l.url.host l.url.path roots) _ b h6 in
    let (there, h8) =
      check-ok (is_there o location i) invalid (ok (url_type l location i names)) b h7 in
    let same : url_type l location i names ≡ b = ok-same _ b h8 in
    let (text, id) = split_path_sound parts.1 names.0 names.1 (need-ok _ _ names_ok) in
    let path = cut_sound l.url.path storage_prefix parts.0 parts.1 (need-ok _ _ parts_ok) in
    subst (Accepted o s) same (
      roots,
      l,
      i,
      need-ok _ _ roots_ok,
      need-ok _ _ l_ok,
      location_ok,
      (parts.0, parts.1, path, text, id),
      i_ok,
      refl,
      refl,
      refl,
      refl,
      refl,
      cloud_of-OfCloud location l.url.host,
      λ k. refl,
      there-exists o location i there,
    )

-- What is found in a text is what an accepted link says, and neither the name nor the snapshot nor
-- its time is empty.
abbrev pub Says : Outside → Bytes → Detail → Type 0
Says o u d =
    (b : BackupUrl) × Accepted o (link_text u) b
    × (d.backup_name ≡ b.backup_name)
    × (d.backup_id ≡ b.backup_id)
    × (d.location ≡ b.location)
    × (d.restic_snapshot_id ≡ b.values (codes "snapshotId"))
    × (d.snapshot_time ≡ b.values (codes "snapshotTime"))
    × (d.storage.cloud_name ≡ b.cloud_name)
    × (d.storage.region_id ≡ b.region)
    × (d.storage.bucket ≡ b.bucket)
    × (d.storage.prefix ≡ b.prefix)
    × (d.storage.olares_suffix ≡ b.olares_suffix)
    × (d.location ≡ "filesystem" → d.storage.filesystem_path ≡ b.endpoint)
    × (d.location ≢ "filesystem" → d.storage.filesystem_path ≡ [])
    × (is_empty d.backup_name ≡ false)
    × (is_empty d.restic_snapshot_id ≡ false)
    × (is_empty d.snapshot_time ≡ false)

-- A text from which a restore can be made is a link whose path ends in olares-backups/, a name, a
-- dash and an id, and the name, the snapshot and its time that are found are not empty. The name
-- and the id are those of the path, the snapshot and its time those of the query, the endpoint,
-- the region, the bucket, the prefix and the suffix those that the location's format finds in the
-- link, and the cloud the one of the host; a directory of the file system is there.
pub accepted_link :
    (o : Outside) (u : Bytes) (d : Detail) → parse_restore_backup_url_detail o u ≡ ok d → Says o u d
unfolding parse_restore_backup_url_detail get_storage
accepted_link o u d h =
    let (some_text, h1) = check-ok (not (is_empty u)) _ _ d h in
    let (b, b_ok, h2) = bind-ok (parse_backup_url o (link_text u)) _ d h1 in
    let (some_name, h3) = check-ok (not (is_empty b.backup_name)) invalid _ d h2 in
    let (some_id, h4) = check-ok (not (is_empty b.backup_id)) invalid _ d h3 in
    let (some_snapshot, h5) =
      check-ok (not (is_empty (b.values (codes "snapshotId")))) invalid _ d h4 in
    let (some_time, h6) =
      check-ok (not (is_empty (b.values (codes "snapshotTime")))) invalid (ok (detail_of b)) d h5 in
    let same : detail_of b ≡ d = ok-same _ d h6 in
    subst (Says o u) same (
      b,
      parse_backup_url-Accepted o (link_text u) b b_ok,
      refl,
      refl,
      refl,
      refl,
      refl,
      refl,
      refl,
      refl,
      refl,
      refl,
      λ e. rw e refl,
      λ e. rw (str_eq-false b.location "filesystem" e) refl,
      not-true _ some_name,
      not-true _ some_snapshot,
      not-true _ some_time,
    )
