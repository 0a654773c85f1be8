-- ===== src/Snapshots/Events.antt =====
-- The predicates of the snapshot controller: which events make it reconcile.
use backup_server.Base.{
  ℕ, str_eq, Bool, true, false, not, ◌&&◌, Option, none, some, if◌then◌else◌, ◌==◌,
}
use backup_server.Base.Int.{ℤ, pos, negsuc}
use backup_server.Snapshots.Types.{
  Extra, nil, no_push, malformed, null_push, push, Snapshot, is_final, running, Check, known,
  unknown, check_notify_state,
}

pub data Verdict : Type 0 where
  reconciles ignores crashes : Verdict

abbrev bool_eq : Bool → Bool → Bool
bool_eq true b = b
bool_eq false b = not b

abbrev int_eq : ℤ → ℤ → Bool
int_eq (pos m) (pos n) = m == n
int_eq (negsuc m) (negsuc n) = m == n
int_eq _ _ = false

abbrev time_eq : Option ℕ → Option ℕ → Bool
time_eq none none = true
time_eq (some m) (some n) = m == n
time_eq _ _ = false

abbrev extra_eq : Extra → Extra → Bool
extra_eq nil nil = true
extra_eq no_push no_push = true
extra_eq malformed malformed = true
extra_eq null_push null_push = true
extra_eq (push n) (push m) =
    bool_eq n.prepare m.prepare && bool_eq n.progress m.progress && bool_eq n.result m.result
extra_eq _ _ = false

-- reflect.DeepEqual of two specs
unfoldable pub same_spec : Snapshot → Snapshot → Bool
same_spec s t =
    str_eq s.backup_id t.backup_id
    && str_eq s.phase t.phase
    && str_eq s.message t.message
    && int_eq s.progress t.progress
    && s.start_at == t.start_at
    && time_eq s.end_at t.end_at
    && extra_eq s.extra t.extra

unfoldable pub is_running_progress : Snapshot → Snapshot → Bool
is_running_progress old new = str_eq new.phase old.phase && str_eq new.phase running

-- Reconcile what is not notified.
abbrev unless_notified : Check → Verdict
unless_notified (known b) = if b then ignores else reconciles
unless_notified unknown = ignores
unless_notified Check.crashes = Verdict.crashes

unfoldable pub create_event : Snapshot → Verdict
create_event s =
    if is_final s.phase then unless_notified (check_notify_state s.extra "result") else reconciles

unfoldable pub update_event : Snapshot → Snapshot → Verdict
unfolding same_spec is_running_progress
update_event old new =
    if same_spec old new
    then ignores
    else if is_running_progress old new
    then ignores
    else unless_notified (check_notify_state new.extra "result")
