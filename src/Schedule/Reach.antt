-- ===== src/Schedule/Reach.antt =====
-- What holds of the schedule after any sequence of calls.
use backup_server.Base.{
  ◌+◌, ◌≤◌, ◌≡◌, String, str_eq, Bool, not, ◌&&◌, List, [], count, count-ext, count-none, arith,
  eq_iff, Bool-cases, inl, inr, if◌then◌else◌,
}
use backup_server.Base.Bytes.{Bytes}
use backup_server.Schedule.{
  Entry, Cron, IsCron, Outcome, scheduled, refused, state_of, remove_from_schedule, create_schedule,
}
use backup_server.Schedule.Replace.{Promised, remove_from_schedule_lem, create_schedule_lem}

abbrev pub named : String → Entry → Bool
named b e = str_eq e.name b

-- The states that the calls of the handler reach from an empty schedule.
pub data Reach (c : Cron) : c.State → Type 0 where
  start : (s : c.State) → c.entries s ≡ [] → Reach c s
  removed : {s : c.State} (b : String) → Reach c s → Reach c (remove_from_schedule c b s)
  created :
      {s : c.State} (b : String) (schedule : Bytes)
      → Reach c s
      → Reach c (state_of (create_schedule c b schedule s))

-- Taking the entries of one backup away leaves none of them, and no more of the others.
kept_few :
    (l : List Entry) (a b : String)
    → count (named a) l ≤ 1
    → count (λ e. named a e && not (str_eq e.name b)) l + (if str_eq b a then 1 else 0) ≤ 1
kept_few l a b h = elim (Bool-cases (str_eq b a)) [
  | inl e ↦ rw e (
      omega (
        arith,
        count-none (λ e. named a e && not (str_eq e.name b)) l
            (λ x. ground (arith, eq_iff b a, eq_iff x.name a, eq_iff x.name b)),
      ))
  | inr n ↦ rw n (
      omega (
        arith,
        count-ext (λ e. named a e && not (str_eq e.name b)) (named a) l
            (λ x. ground (arith, eq_iff b a, eq_iff x.name a, eq_iff x.name b)),
      ))
]

module _ (c : Cron) (v : IsCron c) where
  after_create :
      (a b : String) (schedule : Bytes) (s : c.State) (o : Outcome c.State)
      → Promised c b schedule s o
      → count (named a) (c.entries s) ≤ 1
      → count (named a) (c.entries (state_of o)) ≤ 1
  after_create a b schedule s (scheduled t) h k =
      omega (arith, h.1 (named a), kept_few (c.entries s) a b k)
  after_create a b schedule s (refused t) h k =
      omega (arith, h (named a), kept_few (c.entries s) a b k)

  -- After any calls that start with an empty schedule, a backup has at most one entry. The cron
  -- library is taken to do what it documents.
  pub one_entry : {s : c.State} (a : String) → Reach c s → count (named a) (c.entries s) ≤ 1
  one_entry a (start s e) = rw e (unfold count in omega arith)
  one_entry a (removed {s} b r) = omega (
    arith,
    remove_from_schedule_lem c v b s (named a),
    kept_few (c.entries s) a b (one_entry a r),
  )
  one_entry a (created {s} b schedule r) =
      after_create a b schedule s _ (create_schedule_lem c v b schedule s) (one_entry a r)
