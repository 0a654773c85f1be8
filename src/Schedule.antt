-- ===== src/Schedule.antt =====
-- The cron entries of pkg/handlers/handler_snapshot.go: `RemoveFromSchedule` and `CreateSchedule`.
-- The cron library is an argument: its state, its calls, and what it documents of them.
pub mod Replace
pub mod Reach
pub mod Slots
mod Tests
use backup_server.Base.{
  ℕ, ◌+◌, ◌≡◌, ◌≢◌, String, str_eq, Bool, true, false, not, ◌&&◌, Option, none, some, List, [], ◌∷◌,
  ◌==◌, if◌then◌else◌, count, Pairwise,
}
use backup_server.Base.Bytes.{Bytes}

-- cron.Entry, with the name that its job carries.
pub record Entry : Type 0 where
  pub id : ℕ
  pub name : String
  pub schedule : Bytes

pub record Cron : Type 1 where
  pub State : Type 0
  -- Entries()
  pub entries : State → List Entry
  -- Remove(id)
  pub drop_entry : State → ℕ → State
  -- AddJob(spec, job), and `none` where it reports an error.
  pub add_job : State → Bytes → String → Option State

-- What the library documents, whatever the order in which it lists the entries.
pub record IsCron (c : Cron) : Type 0 where
  pub unique : (s : c.State) → Pairwise (λ e f. e.id ≢ f.id) (c.entries s)
  pub removes :
      (s : c.State) (i : ℕ) (p : Entry → Bool)
      → count p (c.entries (c.drop_entry s i)) ≡ count (λ e. p e && not (e.id == i)) (c.entries s)
  pub adds :
      (s t : c.State) (schedule : Bytes) (name : String)
      → c.add_job s schedule name ≡ some t
      → (i : ℕ) × ((p : Entry → Bool)
          → count p (c.entries t)
            ≡ count p (c.entries s)
              + (if p (record { id = i; name = name; schedule = schedule }) then 1 else 0))

pub data Outcome (S : Type 0) : Type 0 where
  scheduled : S → Outcome S
  refused : S → Outcome S

abbrev pub state_of : {S : Type 0} → Outcome S → S
state_of (scheduled s) = s
state_of (refused s) = s

module _ (c : Cron) where
  -- The loop over the entries that were listed before it.
  unfoldable pub remove_named : String → List Entry → c.State → c.State
  remove_named b [] s = s
  remove_named b (e ∷ es) s = remove_named b es (if str_eq e.name b then c.drop_entry s e.id else s)

  unfoldable pub remove_from_schedule : String → c.State → c.State
  remove_from_schedule b s = remove_named b (c.entries s) s

  -- The error of AddJob is returned after the old entries are removed.
  unfoldable pub create_schedule : String → Bytes → c.State → Outcome c.State
  unfolding remove_named
  create_schedule b schedule s =
      let t = remove_named b (c.entries s) s in
      elim (c.add_job t schedule b) [ none ↦ refused t | some u ↦ scheduled u ]
