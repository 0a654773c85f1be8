-- ===== src/BackupRun/Progress.antt =====
-- `progressCallback` of pkg/storage/storage_backup.go and of pkg/storage/storage_restore.go. The
-- part that is done comes as a number of ten thousandths, which the conversion to int gives, and
-- the time in nanoseconds.
use backup_server.Base.{
  ℕ, ◌+◌, ◌*◌, Bool, true, not, ◌&&◌, Option, none, some, List, [], ◌∷◌, ◌==◌, leb, if◌then◌else◌,
}

-- LastProgressPercent and LastProgressTime, which is `none` before the first report.
pub record Tracker : Type 0 where
  pub percent : ℕ
  pub time : Option ℕ

-- A call: whether the context of the run has ended, the time, and the part that is done.
pub record Callback : Type 0 where
  pub done : Bool
  pub now : ℕ
  pub percent : ℕ

-- What is stored as the progress and sent to the owner: a step, or the last one.
pub data Sent : Type 0 where
  step : ℕ → ℕ → Sent
  last : ℕ → Sent

abbrev pub interval : ℕ
interval = 5 * 1000000000

abbrev pub is_due : ℕ → Option ℕ → Bool
is_due now none = true
is_due now (some t) = leb (t + interval) now

-- A step is sent when the last one is long enough ago and the part that is done is another one.
unfoldable pub paced : Callback → Tracker → Tracker × List Sent
paced c s =
    if is_due c.now s.time && not (s.percent == c.percent)
    then (record { percent = c.percent; time = some c.now }, step c.now c.percent ∷ [])
    else (s, [])

-- The callback of a backup: all of it done is sent as one less, whenever it is called.
unfoldable pub backup_callback : Callback → Tracker → Tracker × List Sent
unfolding paced
backup_callback c s =
    if c.done then (s, []) else if c.percent == 10000 then (s, last 9999 ∷ []) else paced c s

unfoldable pub restore_callback : Callback → Tracker → Tracker × List Sent
unfolding paced
restore_callback c s = if c.done then (s, []) else paced c s
