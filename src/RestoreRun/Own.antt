-- ===== src/RestoreRun/Own.antt =====
-- What the storing of the result of a restore keeps.
use backup_server.Base.{ℕ, zero, suc, String, Option, none, some, Dict, put, Bool-cases, inl, inr}
use backup_server.RestoreRun.Report.{
  Restore, World, Report, Read, read, unreachable, other, Attempt, Verdict, finished,
  failed_to_write, not_found, again, crashed, new_restore, write, with_read, try_result, go_on,
  poll, update_restore_result,
}

module _ (id : String) (p : Report) (P : Dict Restore → Type 0)
    (step : (m : Dict Restore) (r : Restore) (now : ℕ)
      → P m
      → P (put m id (new_restore p now r))) where
  abbrev Holds : Verdict × World → Type 0
  Holds x = P x.1.restores

  write-Holds : (a : Attempt) (r : Restore) (w : World) → P w.restores → Holds (write id p a r w)
  write-Holds a r w h = elim (Bool-cases a.again) [
    | inr n ↦ rw n h
    | inl y ↦ elim (Bool-cases a.writes) [
      | inl z ↦ rw (y, z) (step w.restores r a.now h)
      | inr z ↦ rw (y, z) h
    ]
  ]

  with_read-Holds :
      (a : Attempt) (x : Read) (found : Option Restore) (w : World)
      → P w.restores
      → Holds (with_read id p a x found w)
  with_read-Holds a unreachable found w h = h
  with_read-Holds a other found w h = h
  with_read-Holds a read none w h = h
  with_read-Holds a read (some r) w h = write-Holds a r w h

  try_result-Holds : (a : Attempt) (w : World) → P w.restores → Holds (try_result id p a w)
  unfolding try_result
  try_result-Holds a w h = elim (Bool-cases a.done) [
    | inl y ↦ rw y h
    | inr n ↦ rw n (with_read-Holds a a.reads _ w h)
  ]

  go_on-Holds :
      (x : Verdict × World) (rest : World → Verdict × World)
      → Holds x
      → ((v : World) → P v.restores → Holds (rest v))
      → Holds (go_on x rest)
  go_on-Holds (again, v) rest h later = later v h
  go_on-Holds (finished, v) rest h later = h
  go_on-Holds (failed_to_write, v) rest h later = h
  go_on-Holds (not_found, v) rest h later = h
  go_on-Holds (crashed, v) rest h later = h

  poll-Holds :
      (answer : ℕ → Attempt) (n i : ℕ) (w : World) → P w.restores → Holds (poll id p answer n i w)
  unfolding poll
  poll-Holds answer zero i w h = h
  poll-Holds answer (suc n) i w h =
      go_on-Holds (try_result id p (answer i) w) (λ v. poll id p answer n (suc i) v)
        (try_result-Holds (answer i) w h) (λ v k. poll-Holds answer n (suc i) v k)

  -- What every new object of the run keeps is kept while its result is stored.
  pub result-Holds :
      (answer : ℕ → Attempt) (n : ℕ) (w : World)
      → P w.restores
      → P (update_restore_result id p answer n w).1.restores
  unfolding update_restore_result
  result-Holds answer n w h = poll-Holds answer n 0 w h
