-- ===== src/Api/Accepted.antt =====
-- What becomes of a request to restore.
use backup_server.Base.{
  ℕ, [], ◌∷◌, ◌≡◌, ◌≢◌, ◌∙◌, refl, sym, subst, ap, true, false, not, Option, none, some,
  if◌then◌else◌, Dict, put, Result, ok, err, bind-ok, ok-same, check-ok, Bool-cases, inl, inr,
}
use backup_server.Base.Bytes.{Bytes, codes, bytes_eq}
use backup_server.Repo.{Failure, invalid, is_empty}
use backup_server.BackupRun.Prepare.{get_backup_location_config}
use backup_server.BackupUrl.{
  BackupUrl, Detail, need, parse_backup_url, parse_restore_backup_url_detail,
}
use backup_server.BackupUrl.Parsed.{Says, accepted_link, need-ok}
use backup_server.BackupUrl.Tags.{
  get_backup_type_from_tags, get_backup_type_app_name, get_backup_type_file_path,
}
use backup_server.Api.Texts.{trim_space, trim_line_break}
use backup_server.Api.Restoring.{
  Request, Remote, Answers, Created, Found, refuse, deref, verify, from_snapshot, from_url,
  found_of, can_restore, created_of, asked_restore, create, add_restore, object_of,
}

module _ (a : Answers) (r : Request) where
  some-same : {A : Type 0} (x y : A) → some x ≡ some y → x ≡ y
  some-same x y h = cc

  err_no :
      {A : Type 0} {E : Type 0} {B : Type 0} {e : E} {b : B}
      → ◌≡◌ {A = Result E B} (err e) (ok b)
      → A
  err_no h = cc

  some_no : {A : Type 0} {B : Type 0} {b : B} → some b ≡ none → A
  some_no h = cc

  true_false : {A : Type 0} → true ≡ false → A
  true_false h = cc

  deref-some : {A : Type 0} (x : Option A) (y : A) → deref x ≡ ok y → x ≡ some y
  deref-some none y h = cc
  deref-some (some z) y h = cc

  from_snapshot-none : (f : Found) → from_snapshot a r ≡ ok f → f.url_info ≡ none
  unfolding from_snapshot
  from_snapshot-none f h =
      let (s, s_ok, h1) = bind-ok (need (a.snapshot r.snapshot_id)) _ f h in
      let (b, b_ok, h2) = bind-ok (refuse (a.backup s.backup_id)) _ f h1 in
      let (l, l_ok, h3) =
        bind-ok (refuse (get_backup_location_config (object_of b).source.locations)) _ f h2 in
      let (i, i_ok, h4) = bind-ok (deref s.snapshot_id) _ f h3 in
      let (t, t_ok, h5) = bind-ok (deref s.created_at) _ f h4 in
      sym (ap (λ x. x.url_info) (ok-same _ f h5))

  deref-none : {A : Type 0} {B : Type 0} (x : Option A) (y : A) → x ≡ none → deref x ≡ ok y → B
  deref-none none y h k = err_no k
  deref-none (some z) y h k = some_no h

  -- What is asked for is made from a link that has been read.
  asked-url :
      (owner : Bytes) (c : Created)
      → asked_restore a r owner ≡ ok c
      → (f : Found) × (u : BackupUrl) × (m : Remote) × (cluster : Bytes) × (total : ℕ) × (is_empty
            r.snapshot_id
          ≡ true)
        × (from_url a r ≡ ok f)
        × (can_restore a r f.kind ≡ true)
        × (f.url_info ≡ some u)
        × (f.remote ≡ some m)
        × (a.cluster ≡ some cluster)
        × (m.total_bytes ≡ some total)
        × (c ≡ created_of a r owner cluster f u total)
  unfolding asked_restore
  asked-url owner c h =
      let (v, h1) = check-ok (verify r) invalid _ c h in
      let (cluster, cluster_ok, h2) = bind-ok (need a.cluster) _ c h1 in
      let (f, f_ok, h3) =
        bind-ok (if is_empty r.snapshot_id then from_url a r else from_snapshot a r) _ c h2 in
      let (w, h4) = check-ok (can_restore a r f.kind) invalid _ c h3 in
      let (u, u_ok, h5) = bind-ok (deref f.url_info) _ c h4 in
      let (m, m_ok, h6) = bind-ok (deref f.remote) _ c h5 in
      let (total, total_ok, h7) = bind-ok (deref m.total_bytes) _ c h6 in
      elim (Bool-cases (is_empty r.snapshot_id)) [
        | inl e ↦ (
          f,
          u,
          m,
          cluster,
          total,
          e,
          rw e at f_ok,
          w,
          deref-some f.url_info u u_ok,
          deref-some f.remote m m_ok,
          need-ok _ _ cluster_ok,
          deref-some m.total_bytes total total_ok,
          sym (ok-same _ c h7),
        )
        | inr e ↦ deref-none f.url_info u (from_snapshot-none f (rw e at f_ok)) u_ok
      ]

  create-new :
      (x : Result Failure Created) (restores : Dict Created)
      → (create a r x restores).0 ≡ ok tt
      → (c : Created) × (x ≡ ok c) × ((create a r x restores).1 ≡ put restores a.new_id c)
  create-new (err e) restores h = err_no h
  create-new (ok c) restores h = elim (Bool-cases a.creates) [
    | inl y ↦ rw y (c, refl, refl)
    | inr n ↦ err_no (rw n at h)
  ]

  create-old :
      (x : Result Failure Created) (restores : Dict Created)
      → ((c : Created) → x ≢ ok c)
      → (create a r x restores).1 ≡ restores
  create-old (err e) restores h = refl
  create-old (ok c) restores h = absurd (h c refl)

  -- A request to restore from a snapshot creates nothing and does not succeed, whatever is
  -- answered: the link, which is nil there, is read.
  pub snapshot_creates_nothing :
      (owner : Bytes) (restores : Dict Created)
      → is_empty r.snapshot_id ≡ false
      → ((add_restore a r owner restores).0 ≢ ok tt)
        × ((add_restore a r owner restores).1 ≡ restores)
  unfolding add_restore
  snapshot_creates_nothing owner restores n =
      let never : (c : Created) → asked_restore a r owner ≢ ok c = λ c h.
        (let (f, u, m, cluster, total, e, l1, l2, l3, l4, l5, l6, l7) = asked-url owner c h in
          true_false (sym e ∙ n)) in
      (
        λ h.
            (let (c, asked, stored) = create-new (asked_restore a r owner) restores h in
              never c asked),
        create-old (asked_restore a r owner) restores never,
      )

  refuse-ok : {A : Type 0} (x : Result Bytes A) (y : A) → refuse x ≡ ok y → x ≡ ok y
  refuse-ok (ok z) y h = cc
  refuse-ok (err e) y h = err_no h

  -- The link of the request is accepted, and the snapshot that it names is in its repository.
  abbrev pub IsLinked : BackupUrl → Detail → Remote → Type 0
  IsLinked u d m =
      (text : Bytes) × (a.decode r.backup_url ≡ some text)
      × (parse_backup_url a.outside (trim_line_break text) ≡ ok u)
      × Says a.outside (trim_line_break text) d
      × (a.remote u d ≡ ok m)

  from_url-IsLinked :
      (f : Found)
      → from_url a r ≡ ok f
      → (u : BackupUrl) × (d : Detail) × (m : Remote) × IsLinked u d m × (f ≡ found_of a r u d m)
  unfolding from_url
  from_url-IsLinked f h =
      let (text, text_ok, h1) = bind-ok (need (a.decode r.backup_url)) _ f h in
      let (some_text, h2) = check-ok (not (is_empty text)) invalid _ f h1 in
      let (u, u_ok, h3) = bind-ok (parse_backup_url a.outside (trim_line_break text)) _ f h2 in
      let (d, d_ok, h4) =
        bind-ok (parse_restore_backup_url_detail a.outside (trim_line_break text)) _ f h3 in
      let (m, m_ok, h5) = bind-ok (refuse (a.remote u d)) _ f h4 in
      (
        u,
        d,
        m,
        (
          text,
          need-ok _ _ text_ok,
          u_ok,
          accepted_link a.outside (trim_line_break text) d d_ok,
          refuse-ok _ _ m_ok,
        ),
        sym (ok-same _ f h5),
      )

  -- What the object of a restore says of the link, of the snapshot in the repository and of the
  -- request.
  pub record Restores (owner : Bytes) (u : BackupUrl) (d : Detail) (m : Remote) (c : Created)
      : Type 0 where
    pub owned : c.owner ≡ owner
    pub pending : c.phase ≡ "Pending"
    pub kind : c.kind ≡ get_backup_type_from_tags m.tags
    pub backup_id : c.backup_id ≡ d.backup_id
    pub backup_name : c.backup_name ≡ d.backup_name
    pub restic_id : c.restic_snapshot_id ≡ d.restic_snapshot_id
    pub time : c.snapshot_time ≡ d.snapshot_time
    pub no_snapshot : c.snapshot_id ≡ []
    pub of_link : c.restore_type.of_snapshot ≡ false
    pub cluster : a.cluster ≡ some c.cluster_id
    pub endpoint : c.endpoint ≡ u.endpoint
    pub location : c.restore_type.location ≡ d.location
    pub password : c.restore_type.password ≡ a.encode (trim_space r.password)
    pub total : m.total_bytes ≡ some c.restore_type.total_bytes
    pub storage : c.restore_type.backup_url ≡ some d.storage
    pub app :
        bytes_eq c.kind (codes "app") ≡ true
        → (c.app_name ≡ get_backup_type_app_name a.decode m.tags)
          × (c.backup_path ≡ [])
          × (c.restore_type.path ≡ [])
          × (c.restore_type.sub_path ≡ [])
    pub files :
        bytes_eq c.kind (codes "app") ≡ false
        → (c.app_name ≡ [])
          × (c.backup_path ≡ get_backup_type_file_path a.decode m.tags)
          × (c.restore_type.path ≡ r.path)
          × (c.restore_type.sub_path ≡ trim_space r.sub_path)
          × (c.restore_type.sub_path_timestamp ≡ a.now)

  is_empty-nil : (s : Bytes) → is_empty s ≡ true → s ≡ []
  is_empty-nil [] h = refl
  is_empty-nil (c ∷ s) h = cc

  created-Restores :
      (owner cluster : Bytes) (u : BackupUrl) (d : Detail) (m : Remote) (total : ℕ)
      → is_empty r.snapshot_id ≡ true
      → a.cluster ≡ some cluster
      → m.total_bytes ≡ some total
      → Restores owner u d m (created_of a r owner cluster (found_of a r u d m) u total)
  created-Restores owner cluster u d m total e has counted = record {
    owned = refl;
    pending = refl;
    kind = refl;
    backup_id = refl;
    backup_name = refl;
    restic_id = refl;
    time = refl;
    no_snapshot = is_empty-nil r.snapshot_id e;
    of_link = rw e refl;
    cluster = has;
    endpoint = refl;
    location = refl;
    password = refl;
    total = counted;
    storage = refl;
    app = λ y. rw y (refl, refl, refl, refl);
    files = λ n. rw n (refl, refl, refl, refl, refl);
  }

  -- A request to restore that succeeds has a link that is accepted and whose snapshot is in its
  -- repository, names a directory for files or has Wise for what is of another kind, and stores
  -- one pending object under the id that is made for it: the owner is the one who asks, the type
  -- is that of the snapshot's tags, the ids, the time, the location, the endpoint and the storage
  -- are those of the link, the cluster is the one that is read, the number of bytes is that of the
  -- snapshot, the password is the request's, encoded, and the app, or the path of the backup with
  -- the request's directory, is as the type has it.
  pub created_from_link :
      (owner : Bytes) (restores : Dict Created)
      → (add_restore a r owner restores).0 ≡ ok tt
      → (u : BackupUrl) × (d : Detail) × (m : Remote) × (c : Created) × IsLinked u d m
        × (can_restore a r (get_backup_type_from_tags m.tags) ≡ true)
        × Restores owner u d m c
        × ((add_restore a r owner restores).1 ≡ put restores a.new_id c)
  unfolding add_restore
  created_from_link owner restores h =
      let (c, asked, stored) = create-new (asked_restore a r owner) restores h in
      let (f, v, m, cluster, total, e, made, can, link, has, in_cluster, counted, same) =
        asked-url owner c asked in
      let (u, d, n, linked, f_is) = from_url-IsLinked f made in
      let n_is : n ≡ m = some-same n m (sym (ap (λ x. x.remote) f_is) ∙ has) in
      let v_is : u ≡ v = some-same u v (sym (ap (λ x. x.url_info) f_is) ∙ link) in
      (
        u,
        d,
        n,
        created_of a r owner cluster (found_of a r u d n) u total,
        linked,
        subst (λ x. can_restore a r x.kind ≡ true) f_is can,
        created-Restores owner cluster u d n total e in_cluster
            (ap (λ x. x.total_bytes) n_is ∙ counted),
        stored ∙ ap (λ x. put restores a.new_id x) (same ∙ rw (f_is, sym v_is) refl),
      )
