-- ===== src/CronText/Tests.antt =====
-- Cron lines of concrete times of day.
use backup_server.Base.{◌≡◌, refl, some, [], ◌∷◌, ok, err}
use backup_server.Base.Bytes.{Bytes, codes, split}
use backup_server.Base.Int.{ℤ, pos}
use backup_server.CronText.Numbers.{atoi, itoa, show, digits}
use backup_server.CronText.{invalid_hour, two_parts, pred_64, cron_line, parse_to_cron}
use backup_server.CronText.Fields.{cron_fields, split-parse_to_cron}

weekly_line : parse_to_cron "@weekly" (codes "7:30") (pos 1) (pos 0) ≡ ok (codes "30 7 * * 0")
unfolding parse_to_cron cron_line two_parts split atoi itoa show digits pred_64
weekly_line = refl

every_no_minutes : parse_to_cron "@hourly" (codes "7:00") (pos 1) (pos 0) ≡ ok (codes "*/0 * * * *")
unfolding parse_to_cron cron_line two_parts split atoi itoa show digits pred_64
every_no_minutes = refl

too_late : parse_to_cron "@daily" (codes "25:00") (pos 1) (pos 0) ≡ err invalid_hour
unfolding parse_to_cron cron_line two_parts split atoi itoa show digits
too_late = refl

split-parse_to_cron_example :
    (hour : Bytes) × (minute : Bytes) × (m : ℤ) × (split (codes "7:30") b':' ≡ hour ∷ minute ∷ [])
    × (atoi minute ≡ some m)
    × (split (codes "30 7 * * 0") b' ' ≡ cron_fields "@weekly" hour minute m (pos 1) (pos 0))
split-parse_to_cron_example =
    split-parse_to_cron "@weekly" (codes "7:30") (codes "30 7 * * 0") (pos 1) (pos 0) weekly_line
