-- ===== src/Api/Planned.antt =====
-- What a request to make a plan leaves.
use backup_server.Base.{
  ◌≡◌, ◌≢◌, ◌∙◌, refl, ap, Bool, if◌then◌else◌, String, str_eq-false, eq_iff, true, false, not,
  ◌||◌, some, [], ◌∷◌, All, Dict, put, Result, ok, err, arith, Bool-cases, Option-cases, inl, inr,
}
use backup_server.Base.Bytes.{Bytes}
use backup_server.Base.Bytes.Laws.{bytes_eq_iff}
use backup_server.Backups.{Policy}
use backup_server.Plan.{
  Create, PlanError, is_empty, is_cloud, valid_location, valid_integration_name, with_account,
  verify_usage, checked,
}
use backup_server.Plan.Kept.{SwitchesOn, FillsIn, checked-Passes}
use backup_server.Api.Texts.{trim_space}
use backup_server.Api.Plans.{
  Request, Place, Planned, Answers, Reply, success, refused, is_app, verify_backup_files, verify,
  has_label, build_location_config, merge_config, apply, apply_checked, is_whole, add_backup,
}

module _ (a : Answers) where
  refused_no : {A : Type 0} → refused ≡ success → A
  refused_no h = cc

  true_false : {A : Type 0} → true ≡ false → A
  true_false h = cc

  -- Where the object says that the files go.
  pub record Goes (r : Request) (location : String) (p : Place) : Type 0 where
    pub disk : location ≡ "filesystem" → p.path ≡ r.plan.config.path
    pub no_disk : location ≢ "filesystem" → p.path ≡ []
    pub space :
        location ≡ "space"
        → (valid_integration_name a.accounts location r.plan.config.name ≡ ok p.name)
          × (p.cloud_name ≡ r.plan.config.cloud_name)
          × (p.region_id ≡ r.plan.config.region_id)
          × (a.cluster ≡ some p.cluster_id)
    pub no_space :
        location ≢ "space"
        → (p.name ≡ r.plan.config.name)
          × (p.cloud_name ≡ [])
          × (p.region_id ≡ [])
          × (p.cluster_id ≡ [])
    pub cloud : is_cloud location ≡ true → a.token ≡ some p.endpoint
    pub no_cloud : is_cloud location ≡ false → p.endpoint ≡ []

  -- The object that a request makes.
  pub record Holds (owner : Bytes) (r : Request) (b : Planned) : Type 0 where
    pub owned : b.owner ≡ owner
    pub name : b.name ≡ trim_space r.plan.name
    pub label : b.label ≡ a.hash (trim_space r.plan.name)
    pub app : is_app r.plan.kind ≡ true → (b.kind ≡ "app") × (b.source ≡ r.app_name)
    pub files : is_app r.plan.kind ≡ false → (b.kind ≡ "file") × (b.source ≡ r.plan.path)
    pub location : b.location ≡ r.plan.location
    pub place : Goes r r.plan.location b.place
    pub policy : SwitchesOn a.to_local r.plan.policies b.policy
    pub size : b.size ≡ 0
    pub unnotified : b.notified ≡ false
    pub sized_at : b.size_updated ≡ a.now

  goes :
      (r : Request) (cluster endpoint name : Bytes)
      → a.cluster ≡ some cluster
      → FillsIn a.accounts a.token r.plan name endpoint
      → Goes r r.plan.location (
          build_location_config r.plan.location cluster endpoint
            (record r.plan.config { name = name }))
  unfolding build_location_config
  goes r cluster endpoint name has f = record {
    disk = λ e. rw e refl;
    no_disk = λ e. rw (str_eq-false r.plan.location "filesystem" e) refl;
    space = λ e.
        (let y = (eq_iff r.plan.location "space").1 e in
          (f.listed e, rw y refl, rw y refl, rw y has));
    no_space = λ e.
        (let n = str_eq-false r.plan.location "space" e in
          (f.given e, rw n refl, rw n refl, rw n refl));
    cloud = λ y. rw y (f.issued y);
    no_cloud = λ n. rw n refl;
  }

  holds :
      (owner : Bytes) (r : Request) (cluster endpoint name : Bytes) (p : Policy)
      → a.cluster ≡ some cluster
      → FillsIn a.accounts a.token r.plan name endpoint
      → SwitchesOn a.to_local r.plan.policies p
      → Holds owner r (
          merge_config a owner r.app_name cluster endpoint
            (record (with_account name r.plan) { policies = p }))
  unfolding merge_config
  holds owner r cluster endpoint name p has f s = record {
    owned = refl;
    name = refl;
    label = refl;
    app = λ y. rw y (refl, refl);
    files = λ n. rw n (refl, refl);
    location = refl;
    place = goes r cluster endpoint name has f;
    policy = s;
    size = refl;
    unnotified = refl;
    sized_at = refl;
  }

  -- The checks of the location and of the usage are passed, and one object is stored.
  abbrev pub IsMade : Bytes → Request → Dict Planned → Dict Planned → Type 0
  IsMade owner r store after =
      (valid_location r.plan ≡ ok tt)
      × (verify_usage a.usage r.plan.location ≡ ok tt)
      × (b : Planned) × Holds owner r b
      × (after ≡ put store a.new_id b)

  taken : {A : Type 0} (b : Bool) (x y : A) → b ≡ true → (if b then x else y) ≡ x
  taken true x y h = refl
  taken false x y h = cc

  apply-put :
      (owner app_name : Bytes) (x : Create × Bytes) (cluster : Bytes) (store : Dict Planned)
      → a.cluster ≡ some cluster
      → a.writes ≡ true
      → (apply a owner app_name x a.cluster store).1
        ≡ put store a.new_id (merge_config a owner app_name cluster x.1 x.0)
  apply-put owner app_name x cluster store has writes =
      ap (λ k. (apply a owner app_name x k store).1) has
      ∙ ap (λ (o : Reply × Dict Planned). o.1) (taken a.writes (success, _) (refused, store) writes)

  apply-IsMade :
      (owner : Bytes) (r : Request) (x : Create × Bytes) (store : Dict Planned)
      → checked a.accounts a.token a.to_local a.usage owner r.plan ≡ ok x
      → (apply a owner r.app_name x a.cluster store).0 ≡ success
      → IsMade owner r store (apply a owner r.app_name x a.cluster store).1
  apply-IsMade owner r x store made h = elim (Option-cases a.cluster) [
    | inl e ↦ refused_no (rw e at h)
    | inr e ↦ elim (Bool-cases a.writes) [
      | inr n ↦ refused_no (rw (e.1, n) at h)
      | inl y ↦
          (let p = checked-Passes a.accounts a.token a.to_local a.usage owner r.plan x made in
            (
              p.located,
              p.allowed,
              merge_config a owner r.app_name e.0 x.1
                  (record (with_account p.account r.plan) { policies = p.policy }),
              holds owner r e.0 x.1 p.account p.policy e.1 p.filled p.switched,
              apply-put owner r.app_name x e.0 store e.1 y
                  ∙ (ap (λ d. put store a.new_id (merge_config a owner r.app_name e.0 x.1 d))
                      p.made),
            ))
    ]
  ]

  checked-IsMade :
      (owner : Bytes) (r : Request) (x : Result PlanError (Create × Bytes)) (store : Dict Planned)
      → checked a.accounts a.token a.to_local a.usage owner r.plan ≡ x
      → (apply_checked a owner r.app_name x store).0 ≡ success
      → IsMade owner r store (apply_checked a owner r.app_name x store).1
  checked-IsMade owner r (err e) store same h = refused_no h
  checked-IsMade owner r (ok x) store same h = apply-IsMade owner r x store same h

  -- No stored backup has both the label and the owner.
  abbrev pub Unlabelled : Bytes → Bytes → Dict Planned → Type 0
  Unlabelled label owner = All (λ x. x.1.label ≡ label → x.1.owner ≢ owner)

  has_label-Unlabelled :
      (label owner : Bytes) (store : Dict Planned)
      → has_label label owner store ≡ false
      → Unlabelled label owner store
  unfolding has_label
  has_label-Unlabelled label owner [] h = tt
  has_label-Unlabelled label owner ((id, b) ∷ store) h = (
    λ l o.
        (let labelled = (bytes_eq_iff b.label label).1 l in
          let owned = (bytes_eq_iff b.owner owner).1 o in true_false (rw (labelled, owned) at h)),
    has_label-Unlabelled label owner store (ground arith),
  )

  -- What a request has to have.
  pub record Whole (r : Request) : Type 0 where
    pub config : r.has_config ≡ true
    pub policies : r.has_policies ≡ true
    pub name : is_empty r.plan.name ≡ false
    pub times : is_empty r.plan.policies.times_of_day ≡ false
    pub app : is_app r.plan.kind ≡ true → is_empty r.app_name ≡ false
    pub files : is_app r.plan.kind ≡ false → verify_backup_files r.plan ≡ true

  is_whole-Whole : (r : Request) → is_whole a r ≡ true → Whole r
  unfolding verify
  is_whole-Whole r h = record {
    config = ground arith;
    policies = ground arith;
    name = ground arith;
    times = ground arith;
    app = λ y. ground arith;
    files = λ n. ground arith;
  }

  -- A request for a plan that succeeds has a configuration, a policy, a name and a time of day,
  -- and the app's name or a path and a name that are allowed for files; no stored backup of the
  -- owner has the label of its name as it is asked for; its location is valid, and the owner may
  -- use it. One object is stored under the id that is made for it: the owner is the one who asks,
  -- the name and its label are those asked for, without the spaces around them, it saves the app
  -- or the path of the request, it goes where the request says, with the account that is chosen
  -- for the space and the endpoint of the cloud token for the clouds, and its policy is the
  -- request's, switched on, with a time of day. No size is known of it, and it is not notified.
  pub add_backup-IsMade :
      (owner : Bytes) (r : Request) (store : Dict Planned)
      → (add_backup a owner r store).0 ≡ success
      → Whole r
        × Unlabelled (a.hash r.plan.name) owner store
        × IsMade owner r store (add_backup a owner r store).1
  unfolding add_backup
  add_backup-IsMade owner r store h = elim (Bool-cases (is_whole a r)) [
    | inr n ↦ refused_no (rw n at h)
    | inl y ↦ elim (Bool-cases (not a.lists || has_label (a.hash r.plan.name) owner store)) [
      | inl z ↦ refused_no (rw (y, z) at h)
      | inr n ↦ (
        is_whole-Whole r y,
        has_label-Unlabelled (a.hash r.plan.name) owner store (ground arith),
        rw (y, n) (checked-IsMade owner r _ store refl (rw (y, n) at h)),
      )
    ]
  ]
