-- ===== src/Schedule/Tests.antt =====
-- Schedules over a concrete cron.
use backup_server.Base.{◌≤◌, ◌≡◌, refl, none, some, [], ◌∷◌, count}
use backup_server.Base.Bytes.{codes}
use backup_server.Schedule.{scheduled, state_of, remove_named, create_schedule}
use backup_server.Schedule.Replace.{Promised, create_schedule_lem}
use backup_server.Schedule.Reach.{Reach, start, created, named, one_entry}
use backup_server.Schedule.Slots.{Slots, listed, emptied, slots_cron, slots_cron-IsCron}

abbrev two_backups : Slots
two_backups = some ("a", (codes "0 1 * * *")) ∷ some ("b", (codes "0 2 * * *")) ∷ []

replaced :
    create_schedule slots_cron "b" (codes "5 2 * * *") two_backups
    ≡ scheduled (some ("b", (codes "5 2 * * *")) ∷ some ("a", (codes "0 1 * * *")) ∷ none ∷ [])
unfolding create_schedule remove_named listed emptied
replaced = refl

create_schedule_lem_example :
    Promised slots_cron "b"
      (codes "5 2 * * *")
      two_backups
      (create_schedule slots_cron "b" (codes "5 2 * * *") two_backups)
create_schedule_lem_example =
    create_schedule_lem slots_cron slots_cron-IsCron "b" (codes "5 2 * * *") two_backups

two_schedules : Reach slots_cron (state_of (create_schedule slots_cron "b" (codes "5 2 * * *") []))
two_schedules = created "b" (codes "5 2 * * *") (start [] (unfold listed in refl))

one_entry_example :
    count (named "b") (listed (state_of (create_schedule slots_cron "b" (codes "5 2 * * *") [])))
    ≤ 1
one_entry_example = one_entry slots_cron slots_cron-IsCron "b" two_schedules
