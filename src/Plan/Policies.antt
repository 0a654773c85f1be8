-- ===== src/Plan/Policies.antt =====
-- Which policies pass the check, and which of them can be scheduled.
use backup_server.Base.{
  ℕ, ◌≤◌, ◌≡◌, ◌∙◌, refl, sym, ap, String, str_eq, true, not, ◌||◌, Option, none, some, [], ◌∷◌,
  ◌++◌, Result, ok, err, arith, eq_iff, Bool-cases, Option-cases, Result-cases, inl, inr,
}
use backup_server.Base.Bytes.{Bytes, contains, split}
use backup_server.Base.Bytes.Laws.{Lacks, split-append, split_lacking, cut-append}
use backup_server.Base.Int.{ℤ, pos}
use backup_server.Backups.{Policy}
use backup_server.CronText.{not_a_number, two_parts, parse_to_cron}
use backup_server.CronText.Numbers.{atoi}
use backup_server.CronText.Fields.{Known, cron_fields, hourly, daily, weekly, monthly}
use backup_server.CronText.Clock.{accepts_time}
use backup_server.Plan.{PlanError, is_frequency, local_times, between, valid_backup_policy}

frequency_known : (f : String) → is_frequency f ≡ true → Known f
frequency_known f h = elim (Bool-cases (str_eq f "@hourly")) [
  | inl e ↦ hourly ((eq_iff f "@hourly").0 e)
  | inr a ↦ elim (Bool-cases (str_eq f "@daily")) [
    | inl e ↦ daily ((eq_iff f "@daily").0 e)
    | inr b ↦ elim (Bool-cases (str_eq f "@weekly")) [
      | inl e ↦ weekly ((eq_iff f "@weekly").0 e)
      | inr c ↦ monthly ((eq_iff f "@monthly").0 (ground arith))
    ]
  ]
]

abbrev passed : Policy → Result PlanError Policy
passed p = ok p

ok-injective : (p q : Policy) → passed p ≡ passed q → p ≡ q
ok-injective p q e = cc

passes :
    (to_local : Bytes → Option Bytes) (p q : Policy)
    → valid_backup_policy to_local p ≡ ok q
    → (is_frequency q.frequency ≡ true) × (q.enabled ≡ true)
unfolding valid_backup_policy
passes to_local p q = elim (Bool-cases (is_frequency p.frequency)) [
  | inr n ↦ rw n (λ v. cc)
  | inl y ↦ elim (Result-cases (local_times to_local p.times_of_day)) [
    | inr e ↦ rw (y, e.1) (λ v. cc)
    | inl t ↦ elim (Bool-cases (not (str_eq p.frequency "@weekly") || between 1 7 p.day_of_week)) [
      | inr n ↦ rw (y, t.1, n) (λ v. cc)
      | inl w ↦
          elim (Bool-cases (not (str_eq p.frequency "@monthly") || between 1 31 p.date_of_month)) [
            | inr n ↦ rw (y, t.1, w, n) (λ v. cc)
            | inl m ↦
                rw (y, t.1, w, m)
                  (λ v.
                    let same = ok-injective _ q v in
                    (
                      ap (λ r. is_frequency r.frequency) (sym same) ∙ y,
                      ap (λ r. r.enabled) (sym same),
                    ))
          ]
    ]
  ]
]

-- A policy that passes the check and whose time of day is made of two numbers, up to 24 and up to
-- 59, with or without zeros before them, can be made into a cron line, which has the five fields of
-- its frequency, and it is enabled.
pub valid_policy_line :
    (to_local : Bytes → Option Bytes) (p q : Policy) (a b : Bytes) (h m : ℕ)
    → valid_backup_policy to_local p ≡ ok q
    → split q.times_of_day b':' ≡ a ∷ b ∷ []
    → atoi a ≡ some (pos h)
    → atoi b ≡ some (pos m)
    → h ≤ 24
    → m ≤ 59
    → (line : Bytes) × (parse_to_cron q.frequency q.times_of_day q.day_of_week q.date_of_month
        ≡ ok line)
      × (split line b' ' ≡ cron_fields q.frequency a b (pos m) q.day_of_week q.date_of_month)
      × (q.enabled ≡ true)
valid_policy_line to_local p q a b h m v parts ha hb hh hm =
    let (known, on) = passes to_local p q v in
    let (line, made, fields) =
      accepts_time q.frequency q.times_of_day a b h m q.day_of_week q.date_of_month parts ha hb
        (frequency_known q.frequency known) hh hm in
    (line, made, fields, on)

times_pass :
    (to_local : Bytes → Option Bytes) (a b : Bytes)
    → Lacks b':' a
    → Lacks b':' b
    → local_times to_local (a ++ b':' ∷ b) ≡ ok (a ++ b':' ∷ b)
times_pass to_local a b ha hb =
    unfold local_times contains in
    rw (cut-append a b b':' ha, split-append a b b':' ha, split_lacking b b':' hb) refl

no_line :
    (f : String) (w d : ℤ) (a b : Bytes)
    → Lacks b':' a
    → Lacks b':' b
    → atoi b ≡ none
    → parse_to_cron f (a ++ b':' ∷ b) w d ≡ err not_a_number
unfolding parse_to_cron
no_line f w d a b ha hb n = elim (Option-cases (atoi a)) [
  | inl e ↦ rw (split-append a b b':' ha, split_lacking b b':' hb, two_parts, e) refl
  | inr e ↦ rw (split-append a b b':' ha, split_lacking b b':' hb, two_parts, e.1, n) refl
]

-- The check looks at the number of parts of a time of day, not at what they are: a daily policy
-- whose time of day has no number behind the colon passes, and no cron line can be made of it.
pub unread_minutes_pass :
    (to_local : Bytes → Option Bytes) (p : Policy) (a b : Bytes)
    → p.frequency ≡ "@daily"
    → p.times_of_day ≡ a ++ b':' ∷ b
    → Lacks b':' a
    → Lacks b':' b
    → atoi b ≡ none
    → (valid_backup_policy to_local p ≡ ok (record p { enabled = true }))
      × (parse_to_cron p.frequency p.times_of_day p.day_of_week p.date_of_month ≡ err not_a_number)
unfolding valid_backup_policy
unread_minutes_pass to_local p a b f t ha hb n = (
  rw (f, t, times_pass to_local a b ha hb) refl,
  rw t (no_line p.frequency p.day_of_week p.date_of_month a b ha hb n),
)
