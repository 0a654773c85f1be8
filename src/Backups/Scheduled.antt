-- ===== src/Backups/Scheduled.antt =====
-- The schedule follows the policy of a backup.
use backup_server.Base.{
  ℕ, String, str_eq, ◌≡◌, ◌∙◌, refl, subst, Bool, false, not, ◌&&◌, some, if◌then◌else◌, get, arith,
  count, count-none, Bool-cases, inl, inr, ◌⊎◌,
}
use text.Mathlib.TextPositions.{eq_refl}
use backup_server.Base.Bytes.{Bytes, bytes_eq}
use backup_server.Base.Bytes.Laws.{bytes_eq_refl}
use backup_server.Schedule.{
  Entry, Cron, IsCron, Outcome, remove_from_schedule, create_schedule, scheduled, refused,
}
use backup_server.Schedule.Replace.{Promised, create_schedule_lem, remove_from_schedule_lem}
use backup_server.Schedule.Reach.{named}
use backup_server.Backups.{
  Policy, Backup, World, Answers, done, line_of, notify, reconcile_backup_policies, on_enabled,
  on_kept, reconcile,
}

-- An entry of this backup with this line.
abbrev pub runs_at : String → Bytes → Entry → Bool
runs_at b line e = named b e && bytes_eq e.schedule line

-- A backup has `n` entries, and `n` of its entries have this line.
abbrev pub HasEntries : (c : Cron) → String → Bytes → ℕ → c.State → Type 0
HasEntries c b line n s =
    (count (named b) (c.entries s) ≡ n) × (count (runs_at b line) (c.entries s) ≡ n)

-- An enabled backup has one entry, and that with the line of its policy; another one has none.
abbrev pub Follows : (c : Cron) → Backup → Policy → c.State → Type 0
Follows c b p = HasEntries c b.name (line_of p) (if p.enabled then 1 else 0)

Scheduled-cases :
    {S : Type 0} (o : Outcome S) → ((s : S) × (o ≡ scheduled s)) ⊎ ((s : S) × (o ≡ refused s))
Scheduled-cases (scheduled s) = inl (s, refl)
Scheduled-cases (refused s) = inr (s, refl)

module _ (c : Cron) (v : IsCron c) (b : String) (line : Bytes) where
  none_named : (s : c.State) → count (λ e. named b e && not (str_eq e.name b)) (c.entries s) ≡ 0
  none_named s =
      count-none (λ e. named b e && not (str_eq e.name b)) (c.entries s) (λ e. ground arith)

  none_runs :
      (s : c.State) → count (λ e. runs_at b line e && not (str_eq e.name b)) (c.entries s) ≡ 0
  none_runs s =
      count-none (λ e. runs_at b line e && not (str_eq e.name b)) (c.entries s) (λ e. ground arith)

  removed_all : (s : c.State) → HasEntries c b line 0 (remove_from_schedule c b s)
  removed_all s = (
    remove_from_schedule_lem c v b s (named b) ∙ none_named s,
    remove_from_schedule_lem c v b s (runs_at b line) ∙ none_runs s,
  )

  created_one : (s t : c.State) → create_schedule c b line s ≡ scheduled t → HasEntries c b line 1 t
  created_one s t e =
      let made : Promised c b line s (scheduled t) =
        subst (λ o. Promised c b line s o) e (create_schedule_lem c v b line s) in
      let new : Entry = record { id = made.0; name = b; schedule = line } in
      (
        made.1 (named b) ∙ rw (none_named s, eq_refl) refl,
        made.1 (runs_at b line) ∙ rw (none_runs s, eq_refl, bytes_eq_refl) refl,
      )

module _ (c : Cron) (v : IsCron c) (a : Answers) (b : Backup) (p : Policy) where
  policies_follow :
      (w : World c)
      → (reconcile_backup_policies c a b p w).0 ≡ done
      → HasEntries c b.name (line_of p) 1 (reconcile_backup_policies c a b p w).1.cron
  unfolding reconcile_backup_policies
  policies_follow w = elim (Scheduled-cases (create_schedule c b.name (line_of p) w.cron)) [
    | inl r ↦
        rw (r.1, reconcile_backup_policies) (λ h. created_one c v b.name (line_of p) w.cron r.0 r.1)
    | inr r ↦ rw (r.1, reconcile_backup_policies) (λ h. cc)
  ]

  enabled_follow :
      (w : World c) → (on_enabled c a b p w).0 ≡ done → Follows c b p (on_enabled c a b p w).1.cron
  unfolding on_enabled line_of
  enabled_follow w = elim (Bool-cases p.enabled) [
    | inl on ↦ rw on (policies_follow w)
    | inr off ↦ rw off (λ h. removed_all c v b.name (line_of p) w.cron)
  ]

  kept_follow :
      (w : World c) → (on_kept c a b p w).0 ≡ done → Follows c b p (on_kept c a b p w).1.cron
  unfolding on_kept
  kept_follow w = elim (Bool-cases b.notified) [
    | inl y ↦ rw y (enabled_follow w)
    | inr n ↦ elim (Bool-cases (notify c a b w).0) [
      | inl y ↦ rw (n, y) (enabled_follow (notify c a b w).1)
      | inr m ↦ rw (n, m) (λ h. cc)
    ]
  ]

  -- After a reconciliation without an error a stored backup that has a policy and is not deleted is
  -- scheduled exactly as the policy says: an enabled one has one entry, with the line of the policy,
  -- and a disabled one has none. The cron library is taken to do what it documents.
  pub schedule-Follows :
      (id : String) (w : World c)
      → get w.backups id ≡ some b
      → b.policy ≡ some p
      → b.deleted ≡ false
      → (reconcile c a id w).0 ≡ done
      → Follows c b p (reconcile c a id w).1.cron
  unfolding reconcile
  schedule-Follows id w f policy kept = elim (Bool-cases a.client) [
    | inr n ↦ rw n (λ h. cc)
    | inl y ↦ elim (Bool-cases a.reads) [
      | inr n ↦ rw (y, n) (λ h. cc)
      | inl r ↦ rw (y, r, f, policy, kept) (kept_follow w)
    ]
  ]
