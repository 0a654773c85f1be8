-- ===== src/Snapshots/Retry.antt =====
-- The loop `RETRY` of the `update` of the handlers (pkg/handlers/handler_snapshot.go,
-- handler_backup.go and handler_restore.go), over the versions of the API server.
use backup_server.Base.{
  ℕ, zero, suc, ◌<◌, ◌≤◌, ◌≡◌, refl, Bool, Result, ok, err, ◌==◌, if◌then◌else◌, arith,
}

-- The API server during one update: the version of the stored object at each call, and whether it
-- accepts an object of that version.
pub record Server : Type 0 where
  pub version : ℕ → ℕ
  pub accepts : ℕ → Bool

pub data UpdateError : Type 0 where
  update_failed timed_out : UpdateError

-- The calls from the `n`-th on with an object of version `v`, `fuel` of which end before the
-- context of 60 seconds does. A conflict is answered by the same call again.
unfoldable pub retry : Server → ℕ → ℕ → ℕ → Result UpdateError ℕ
retry a zero n v = err timed_out
retry a (suc fuel) n v =
    let later = retry a fuel (suc n) v in
    if a.version n == v then (if a.accepts n then ok n else err update_failed) else later

-- The stored object has a version that is never lower than before.
pub record Grows (a : Server) : Type 0 where
  pub grows : (n : ℕ) → a.version n ≤ a.version (suc n)

-- An update whose object is older than the stored one conflicts until its time is over, whatever
-- happens meanwhile, as the version of the stored object never goes down.
pub stale_times_out :
    (a : Server) (fuel n v : ℕ) → Grows a → v < a.version n → retry a fuel n v ≡ err timed_out
unfolding retry
stale_times_out a zero n v g h = refl
stale_times_out a (suc fuel) n v g h =
    ground (arith, g.grows n, stale_times_out a fuel (suc n) v g (omega (arith, g.grows n)))
