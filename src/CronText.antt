-- ===== src/CronText.antt =====
-- `ParseToCron` of pkg/util/util.go.
pub mod Numbers
pub mod Fields
pub mod Clock
mod Tests
use backup_server.Base.{
  ℕ, zero, suc, ◌+◌, ◌-◌, ◌^◌, String, str_eq, Bool, true, false, Option, none, some, List, [], ◌∷◌,
  ◌++◌, ◌==◌, leb, if◌then◌else◌, Result, ok, err, ◌>>=◌, ◌>>◌, check,
}
use backup_server.Base.Bytes.{Bytes, codes, split}
use backup_server.Base.Int.{ℤ, pos, negsuc, pos_part}
use backup_server.CronText.Numbers.{atoi, itoa}

pub data CronError : Type 0 where
  invalid_times : CronError
  not_a_number : CronError
  invalid_hour : CronError
  invalid_minute : CronError
  invalid_frequency : CronError

-- The texts of the hour and of the minute.
unfoldable pub two_parts : List Bytes → Result CronError (Bytes × Bytes)
two_parts (hour ∷ minute ∷ []) = ok (hour, minute)
two_parts _ = err invalid_times

abbrev pub read_int : Option ℤ → Result CronError ℤ
read_int none = err not_a_number
read_int (some z) = ok z

abbrev pub in_range : ℤ → ℕ → Bool
in_range (pos n) most = leb n most
in_range (negsuc n) most = false

-- dayOfWeek-1, as an int of 64 bits.
unfoldable pub pred_64 : ℤ → ℤ
pred_64 (pos zero) = negsuc 0
pred_64 (pos (suc n)) = pos n
pred_64 (negsuc n) = if n == 2 ^ 63 - 1 then pos (2 ^ 63 - 1) else negsuc (suc n)

-- The switch on the frequency.
unfoldable pub cron_line : String → Bytes → ℤ → ℤ → ℤ → Bytes
cron_line frequency minute_hour minute day_of_week date_of_month =
    if str_eq frequency "@hourly"
    then codes "*/" ++ itoa minute ++ codes " * * * *"
    else if str_eq frequency "@daily"
    then minute_hour ++ codes " * * *"
    else if str_eq frequency "@weekly"
    then minute_hour ++ codes " * * " ++ itoa (pred_64 day_of_week)
    else if str_eq frequency "@monthly"
    then minute_hour ++ codes " " ++ itoa date_of_month ++ codes " * *"
    else if str_eq frequency "@yearly"
    then minute_hour ++ codes " 1 1 *"
    else []

-- cron == ""
abbrev pub some_line : Bytes → Result CronError Bytes
some_line [] = err invalid_frequency
some_line (c ∷ s) = ok (c ∷ s)

unfoldable pub parse_to_cron : String → Bytes → ℤ → ℤ → Result CronError Bytes
unfolding two_parts
parse_to_cron frequency times_of_day day_of_week date_of_month = do
  (hour, minute) ← two_parts (split times_of_day b':')
  hour_int ← read_int (atoi hour)
  minute_int ← read_int (atoi minute)
  check (in_range hour_int 24) invalid_hour
  check (in_range minute_int 59) invalid_minute
  some_line (cron_line frequency (minute ++ b' ' ∷ hour) minute_int day_of_week date_of_month)
