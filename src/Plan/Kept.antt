-- ===== src/Plan/Kept.antt =====
-- What the checks of a request keep of it, and what they fill in.
use backup_server.Base.{
  [], ◌≡◌, ◌≢◌, ◌∙◌, refl, sym, ap, subst, String, str_eq, eq_iff, Bool, true, false, not, ◌||◌,
  Option, none, some, List, Result, ok, bind-ok, ok-same, check-ok, Bool-cases, inl, inr,
}
use backup_server.Base.Bytes.{Bytes}
use backup_server.Backups.{Policy}
use backup_server.Plan.{
  Create, Account, Usage, PlanError, is_empty, is_cloud, is_frequency, local_times, between,
  valid_backup_policy, valid_location, valid_integration_name, valid_integration, with_account,
  read_endpoint, verify_usage, checked, bad_frequency, bad_day, bad_date, no_name, no_owner,
}

-- The policy that is made of another one: it is switched on, and its time is a time of day.
pub record SwitchesOn (to_local : Bytes → Option Bytes) (p q : Policy) : Type 0 where
  pub known : is_frequency p.frequency ≡ true
  pub on : q.enabled ≡ true
  pub frequency : q.frequency ≡ p.frequency
  pub times : local_times to_local p.times_of_day ≡ ok q.times_of_day
  pub week : q.day_of_week ≡ p.day_of_week
  pub month : q.date_of_month ≡ p.date_of_month

valid_backup_policy-SwitchesOn :
    (to_local : Bytes → Option Bytes) (p q : Policy)
    → valid_backup_policy to_local p ≡ ok q
    → SwitchesOn to_local p q
unfolding valid_backup_policy
valid_backup_policy-SwitchesOn to_local p q h =
    let (known, h1) = check-ok (is_frequency p.frequency) bad_frequency _ q h in
    let (times, times_ok, h2) = bind-ok (local_times to_local p.times_of_day) _ q h1 in
    let (w, h3) =
      check-ok (not (str_eq p.frequency "@weekly") || between 1 7 p.day_of_week) bad_day _ q h2 in
    let (m, h4) =
      check-ok (not (str_eq p.frequency "@monthly") || between 1 31 p.date_of_month) bad_date
        (ok (record p { enabled = true; times_of_day = times })) q h3 in
    let same : record p { enabled = true; times_of_day = times } ≡ q = ok-same _ q h4 in
    subst (SwitchesOn to_local p) same (record {
      known = known;
      on = refl;
      frequency = refl;
      times = times_ok;
      week = refl;
      month = refl;
    })

-- The account and the endpoint that are filled in.
pub record FillsIn (accounts : Option (List Account)) (token : Option Bytes) (c : Create)
    (name endpoint : Bytes) : Type 0 where
  pub listed :
      c.location ≡ "space" → valid_integration_name accounts c.location c.config.name ≡ ok name
  pub given : c.location ≢ "space" → name ≡ c.config.name
  pub issued : is_cloud c.location ≡ true → token ≡ some endpoint

read_endpoint-ok : (t : Option Bytes) (e : Bytes) → read_endpoint t ≡ ok e → t ≡ some e
read_endpoint-ok none e h = cc
read_endpoint-ok (some x) e h = cc

no_both : {A : Type 0} {b : Bool} → b ≡ true → b ≡ false → A
no_both y n = cc

-- What is given on: the request with an account, and an endpoint.
abbrev pub Filled : Option (List Account) → Option Bytes → Create → Create × Bytes → Type 0
Filled accounts token c x =
    (name : Bytes) × (x.0 ≡ with_account name c) × FillsIn accounts token c name x.1

cloud_no_space : (l : String) → l ≡ "space" → is_cloud l ≡ false
cloud_no_space l e = rw e refl

cloud_no_files : (l : String) → l ≡ "filesystem" → is_cloud l ≡ false
cloud_no_files l e = rw e refl

files_no_space : (l : String) → l ≡ "filesystem" → str_eq l "space" ≡ false
files_no_space l e = rw e refl

is_same : (s t : String) → s ≡ t → str_eq s t ≡ true
is_same s t e = (eq_iff s t).1 e

valid_integration-Filled :
    (accounts : Option (List Account)) (token : Option Bytes) (c : Create) (x : Create × Bytes)
    → valid_integration accounts token c ≡ ok x
    → Filled accounts token c x
unfolding valid_integration
valid_integration-Filled accounts token c x h = elim (Bool-cases (str_eq c.location "filesystem")) [
  | inl y ↦
      (let files = (eq_iff c.location "filesystem").0 y in
        let same : (c, []) ≡ x = ok-same _ x (rw (y, valid_integration) at h) in
        subst (Filled accounts token c) same (
          c.config.name,
          refl,
          record {
            listed = λ e. no_both (is_same _ _ e) (files_no_space c.location files);
            given = λ e. refl;
            issued = λ e. no_both e (cloud_no_files c.location files);
          },
        ))
  | inr n ↦
      (let (name, name_ok, h1) =
          bind-ok (valid_integration_name accounts c.location c.config.name) _ x
            (rw (n, valid_integration) at h) in
        elim (Bool-cases (str_eq c.location "space")) [
          | inl y ↦
              (let space = (eq_iff c.location "space").0 y in
                let same : (with_account name c, []) ≡ x = ok-same _ x (rw y at h1) in
                subst (Filled accounts token c) same (
                  name,
                  refl,
                  record {
                    listed = λ e. name_ok;
                    given = λ e. absurd (e space);
                    issued = λ e. no_both e (cloud_no_space c.location space);
                  },
                ))
          | inr m ↦ elim (Bool-cases (is_cloud c.location)) [
            | inl y ↦
                (let (endpoint, endpoint_ok, h2) =
                    bind-ok (read_endpoint token) _ x (rw (m, y) at h1) in
                  let same : (c, endpoint) ≡ x = ok-same _ x h2 in
                  subst (Filled accounts token c) same (
                    c.config.name,
                    refl,
                    record {
                      listed = λ e. no_both (is_same _ _ e) m;
                      given = λ e. refl;
                      issued = λ e. read_endpoint-ok token endpoint endpoint_ok;
                    },
                  ))
            | inr z ↦
                (let same : (c, []) ≡ x = ok-same _ x (rw (m, z) at h1) in
                  subst (Filled accounts token c) same (
                    c.config.name,
                    refl,
                    record {
                      listed = λ e. no_both (is_same _ _ e) m;
                      given = λ e. refl;
                      issued = λ e. no_both e z;
                    },
                  ))
          ]
        ])
]

-- What a request that passes the checks becomes.
pub record Passes (accounts : Option (List Account)) (token : Option Bytes)
    (to_local : Bytes → Option Bytes) (usage : Option Usage) (c : Create) (x : Create × Bytes)
    : Type 0 where
  pub located : valid_location c ≡ ok tt
  pub allowed : verify_usage usage c.location ≡ ok tt
  pub account : Bytes
  pub policy : Policy
  pub filled : FillsIn accounts token c account x.1
  pub switched : SwitchesOn to_local c.policies policy
  pub made : x.0 ≡ record (with_account account c) { policies = policy }

unit_ok : (u : Unit {0}) (r : Result PlanError (Unit {0})) → r ≡ ok u → r ≡ ok tt
unit_ok tt r h = h

pub checked-Passes :
    (accounts : Option (List Account)) (token : Option Bytes) (to_local : Bytes → Option Bytes)
    (usage : Option Usage) (owner : Bytes) (c : Create) (x : Create × Bytes)
    → checked accounts token to_local usage owner c ≡ ok x
    → Passes accounts token to_local usage c x
unfolding checked
checked-Passes accounts token to_local usage owner c x h =
    let (named, h1) = check-ok (not (is_empty c.name)) no_name _ x h in
    let (owned, h2) = check-ok (not (is_empty owner)) no_owner _ x h1 in
    let (u, located, h3) = bind-ok (valid_location c) _ x h2 in
    let (y, y_ok, h4) = bind-ok (valid_integration accounts token c) _ x h3 in
    let (policy, policy_ok, h5) = bind-ok (valid_backup_policy to_local y.0.policies) _ x h4 in
    let (v, allowed, h6) = bind-ok (verify_usage usage y.0.location) _ x h5 in
    let (account, kept, filled) = valid_integration-Filled accounts token c y y_ok in
    let same : (record y.0 { policies = policy }, y.1) ≡ x = ok-same _ x h6 in
    subst (Passes accounts token to_local usage c) same (record {
      located = unit_ok u _ located;
      allowed = unit_ok v _ (ap (λ d. verify_usage usage d.location) (sym kept) ∙ allowed);
      account = account;
      policy = policy;
      filled = filled;
      switched =
          valid_backup_policy-SwitchesOn to_local c.policies policy
            (ap (λ d. valid_backup_policy to_local d.policies) (sym kept) ∙ policy_ok);
      made = ap {A = Create} (λ d. record d { policies = policy }) kept;
    })
