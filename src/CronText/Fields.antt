-- ===== src/CronText/Fields.antt =====
-- The five fields of the cron line that `ParseToCron` makes.
use backup_server.Base.{
  ◌≡◌, refl, sym, ◌∙◌, ap, String, str_eq, true, Option, none, some, List, [], ◌∷◌, ◌++◌,
  append_assoc, if◌then◌else◌, ok, bind-ok, check-ok, arith, eq_iff, Bool-cases, inl, inr, All,
}
use backup_server.Base.Bytes.{Bytes, codes, split, join}
use backup_server.Base.Bytes.Laws.{Lacks, split-join_some}
use backup_server.Base.Int.{ℤ}
use backup_server.CronText.Numbers.{atoi, itoa}
use backup_server.CronText.Numbers.Laws.{atoi-Lacks, itoa-Lacks}
use backup_server.CronText.{
  two_parts, read_int, in_range, pred_64, cron_line, some_line, parse_to_cron,
}

abbrev any : Bytes
any = codes "*"

-- The fields minute, hour, day of the month, month and day of the week of a frequency.
abbrev pub cron_fields : String → Bytes → Bytes → ℤ → ℤ → ℤ → List Bytes
cron_fields frequency hour minute m day_of_week date_of_month =
    if str_eq frequency "@hourly"
    then (codes "*/" ++ itoa m) ∷ any ∷ any ∷ any ∷ any ∷ []
    else if str_eq frequency "@daily"
    then minute ∷ hour ∷ any ∷ any ∷ any ∷ []
    else if str_eq frequency "@weekly"
    then minute ∷ hour ∷ any ∷ any ∷ itoa (pred_64 day_of_week) ∷ []
    else if str_eq frequency "@monthly"
    then minute ∷ hour ∷ itoa date_of_month ∷ any ∷ any ∷ []
    else minute ∷ hour ∷ codes "1" ∷ codes "1" ∷ any ∷ []

-- What ParseToCron has read when it gives a line.
record Parsed (times cron : Bytes) (frequency : String) (day_of_week date_of_month : ℤ)
    : Type 0 where
  hour : Bytes
  minute : Bytes
  h : ℤ
  m : ℤ
  parts : split times b':' ≡ hour ∷ minute ∷ []
  hour_number : atoi hour ≡ some h
  minute_number : atoi minute ≡ some m
  hour_fits : in_range h 24 ≡ true
  minute_fits : in_range m 59 ≡ true
  line :
      some_line (cron_line frequency (minute ++ b' ' ∷ hour) m day_of_week date_of_month) ≡ ok cron

two_parts-ok : (l : List Bytes) (p : Bytes × Bytes) → two_parts l ≡ ok p → l ≡ p.0 ∷ p.1 ∷ []
unfolding two_parts
two_parts-ok [] p h = cc
two_parts-ok (a ∷ []) p h = cc
two_parts-ok (a ∷ b ∷ []) p h = ground arith
two_parts-ok (a ∷ b ∷ c ∷ l) p h = cc

read_int-ok : (o : Option ℤ) (z : ℤ) → read_int o ≡ ok z → o ≡ some z
read_int-ok none z h = cc
read_int-ok (some y) z h = cc

parsed :
    (frequency : String) (times cron : Bytes) (w d : ℤ)
    → parse_to_cron frequency times w d ≡ ok cron
    → Parsed times cron frequency w d
unfolding parse_to_cron
parsed frequency times cron w d h =
    let (p, ep, h1) = bind-ok _ _ cron h in
    let (hour_int, eh, h2) = bind-ok _ _ cron h1 in
    let (minute_int, em, h3) = bind-ok _ _ cron h2 in
    let (fh, h4) = check-ok _ _ _ cron h3 in
    let (fm, h5) = check-ok _ _ _ cron h4 in
    record {
      hour = p.0;
      minute = p.1;
      h = hour_int;
      m = minute_int;
      parts = two_parts-ok _ p ep;
      hour_number = read_int-ok _ _ eh;
      minute_number = read_int-ok _ _ em;
      hour_fits = fh;
      minute_fits = fm;
      line = h5;
    }

pub data Known (f : String) : Type 0 where
  hourly : f ≡ "@hourly" → Known f
  daily : f ≡ "@daily" → Known f
  weekly : f ≡ "@weekly" → Known f
  monthly : f ≡ "@monthly" → Known f
  yearly : f ≡ "@yearly" → Known f

known :
    (f : String) (minute_hour cron : Bytes) (m w d : ℤ)
    → some_line (cron_line f minute_hour m w d) ≡ ok cron
    → Known f
unfolding cron_line
known f minute_hour cron m w d h = elim (Bool-cases (str_eq f "@hourly")) [
  | inl e ↦ hourly (ground (arith, eq_iff f "@hourly"))
  | inr a ↦ elim (Bool-cases (str_eq f "@daily")) [
    | inl e ↦ daily (ground (arith, eq_iff f "@daily"))
    | inr b ↦ elim (Bool-cases (str_eq f "@weekly")) [
      | inl e ↦ weekly (ground (arith, eq_iff f "@weekly"))
      | inr c ↦ elim (Bool-cases (str_eq f "@monthly")) [
        | inl e ↦ monthly (ground (arith, eq_iff f "@monthly"))
        | inr g ↦ elim (Bool-cases (str_eq f "@yearly")) [
          | inl e ↦ yearly (ground (arith, eq_iff f "@yearly"))
          | inr i ↦ ground arith
        ]
      ]
    ]
  ]
]

pub line-join :
    (f : String) (hour minute : Bytes) (m w d : ℤ)
    → Known f
    → cron_line f (minute ++ b' ' ∷ hour) m w d ≡ join (cron_fields f hour minute m w d) b' '
unfolding cron_line join
line-join f hour minute m w d (hourly e) = rw e refl
line-join f hour minute m w d (daily e) = rw e (append_assoc minute (b' ' ∷ hour) (codes " * * *"))
line-join f hour minute m w d (weekly e) = rw e (
    append_assoc (minute ++ b' ' ∷ hour) (codes " * * ") (itoa (pred_64 w))
    ∙ append_assoc minute (b' ' ∷ hour) (codes " * * " ++ itoa (pred_64 w)))
line-join f hour minute m w d (monthly e) = rw e (
    append_assoc ((minute ++ b' ' ∷ hour) ++ codes " ") (itoa d) (codes " * *")
    ∙ append_assoc (minute ++ b' ' ∷ hour) (codes " ") (itoa d ++ codes " * *")
    ∙ append_assoc minute (b' ' ∷ hour) (codes " " ++ (itoa d ++ codes " * *")))
line-join f hour minute m w d (yearly e) = rw e (append_assoc minute (b' ' ∷ hour) (codes " 1 1 *"))

no_space : Lacks b' ' any
no_space = (λ h. omega arith, tt)

pub cron_fields-Lacks :
    (f : String) (hour minute : Bytes) (m w d : ℤ)
    → Lacks b' ' hour
    → Lacks b' ' minute
    → Known f
    → All (Lacks b' ') (cron_fields f hour minute m w d)
cron_fields-Lacks f hour minute m w d lh lm (hourly e) = rw e (
  (λ h. omega arith, (λ h. omega arith, itoa-Lacks m b' ' refl (λ h. omega arith))),
  (no_space, (no_space, (no_space, (no_space, tt)))),
)
cron_fields-Lacks f hour minute m w d lh lm (daily e) =
    rw e (lm, (lh, (no_space, (no_space, (no_space, tt)))))
cron_fields-Lacks f hour minute m w d lh lm (weekly e) =
    rw e
      (lm, (lh, (no_space, (no_space, (itoa-Lacks (pred_64 w) b' ' refl (λ h. omega arith), tt)))))
cron_fields-Lacks f hour minute m w d lh lm (monthly e) =
    rw e (lm, (lh, (itoa-Lacks d b' ' refl (λ h. omega arith), (no_space, (no_space, tt)))))
cron_fields-Lacks f hour minute m w d lh lm (yearly e) =
    rw e (lm, (lh, ((λ h. omega arith, tt), ((λ h. omega arith, tt), (no_space, tt)))))

some_line-ok : (s cron : Bytes) → some_line s ≡ ok cron → s ≡ cron
some_line-ok [] cron h = cc
some_line-ok (c ∷ s) cron h = cc

pub cron_fields-join :
    (f : String) (hour minute : Bytes) (m w d : ℤ)
    → All (Lacks b' ') (cron_fields f hour minute m w d)
    → split (join (cron_fields f hour minute m w d) b' ') b' ' ≡ cron_fields f hour minute m w d
cron_fields-join f hour minute m w d h =
    split-join_some (cron_fields f hour minute m w d) b' ' (λ e. ground arith) h

-- A line that ParseToCron gives is made of five fields. At @hourly they are */ with the number of the
-- minutes, and four times *; else they begin with the minute and the hour as the time of day writes
-- them, behind which stands what the frequency asks of days and months.
pub split-parse_to_cron :
    (f : String) (times cron : Bytes) (w d : ℤ)
    → parse_to_cron f times w d ≡ ok cron
    → (hour : Bytes) × (minute : Bytes) × (m : ℤ) × (split times b':' ≡ hour ∷ minute ∷ [])
      × (atoi minute ≡ some m)
      × (split cron b' ' ≡ cron_fields f hour minute m w d)
split-parse_to_cron f times cron w d h =
    let p = parsed f times cron w d h in
    let frequency = known f (p.minute ++ b' ' ∷ p.hour) cron p.m w d p.line in
    let line = some_line-ok (cron_line f (p.minute ++ b' ' ∷ p.hour) p.m w d) cron p.line in
    let lacks =
      cron_fields-Lacks f p.hour p.minute p.m w d
        (atoi-Lacks p.hour p.h b' ' p.hour_number (omega arith))
        (atoi-Lacks p.minute p.m b' ' p.minute_number (omega arith)) frequency in
    (
      p.hour,
      p.minute,
      p.m,
      p.parts,
      p.minute_number,
      ap (λ s. split s b' ') (sym line ∙ line-join f p.hour p.minute p.m w d frequency)
          ∙ cron_fields-join f p.hour p.minute p.m w d lacks,
    )
