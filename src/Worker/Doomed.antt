-- ===== src/Worker/Doomed.antt =====
-- A task cancelled before it began never runs.
use backup_server.Base.{
  ℕ, ◌<◌, String, ◌≡◌, ◌≢◌, Bool, true, some, List, [], ◌∷◌, arith, get, Bool-cases, Option-cases,
  inl, inr,
}
use backup_server.Worker.Types.{Job, TaskPool, WorkerPool, is_canceled}
use backup_server.Worker.Add.{submit, refuse}
use backup_server.Worker.Cancel.{mark, end_context}
use backup_server.Worker.Life.{begin, begin_task, finish, clean_up}
use backup_server.Worker.Reach.{Step}
use backup_server.Worker.Effects.{canceled-range_cancel}
use backup_server.Worker.Moves.{
  Move, stays, submits, refuses, marks, ends, begins_one, finishes_one, Step-Moved,
}

-- The task is cancelled, and does not run.
pub record IsDoomed (r : ℕ) (p : TaskPool) : Type 0 where
  pub stored : r < p.allocated
  pub canceled : is_canceled p r ≡ true
  pub idle : p.running ≢ some r

mark-canceled :
    (picks : Job → Bool) (p : TaskPool) (r : ℕ)
    → is_canceled p r ≡ true
    → is_canceled (mark picks p) r ≡ true
unfolding is_canceled mark
mark-canceled picks p r h = ground (arith, canceled-range_cancel picks p.tasks p.objects r)

begin_task-IsDoomed :
    (r : ℕ) (p : TaskPool) (l : List ℕ) → IsDoomed r p → IsDoomed r (begin_task p l)
unfolding begin_task clean_up
begin_task-IsDoomed r p [] h = h
begin_task-IsDoomed r p (s ∷ l) h = elim (Bool-cases (is_canceled p s)) [
  | inl c ↦
      rw c
        (record { stored = h.stored; canceled = unfold is_canceled in h.canceled; idle = h.idle })
  | inr c ↦ rw c (record {
    stored = h.stored;
    canceled = unfold is_canceled in h.canceled;
    idle = λ e. ground (arith, h.canceled);
  })
]

mark-IsDoomed :
    (r : ℕ) (picks : Job → Bool) (p : TaskPool) → IsDoomed r p → IsDoomed r (mark picks p)
mark-IsDoomed r picks p h = record {
  stored = unfold mark in h.stored;
  canceled = mark-canceled picks p r h.canceled;
  idle = unfold mark in h.idle;
}

end-IsDoomed : (r s : ℕ) (p : TaskPool) → IsDoomed r p → IsDoomed r (end_context s p)
unfolding end_context is_canceled
end-IsDoomed r s p h = record {
  stored = h.stored;
  canceled = ground (arith, h.canceled);
  idle = h.idle;
}

begin-IsDoomed : (r : ℕ) (p : TaskPool) → IsDoomed r p → IsDoomed r (begin p)
unfolding begin
begin-IsDoomed r p h = elim (Option-cases p.running) [
  | inl e ↦ rw (e, begin) (begin_task-IsDoomed r p p.waiting h)
  | inr f ↦ rw (f.1, begin) h
]

finish-IsDoomed : (r : ℕ) (p : TaskPool) → IsDoomed r p → IsDoomed r (finish p)
unfolding finish clean_up
finish-IsDoomed r p h = elim (Option-cases p.running) [
  | inl e ↦ rw (e, finish) h
  | inr f ↦
      rw (f.1, finish)
        (record { stored = h.stored; canceled = unfold is_canceled in h.canceled; idle = λ e. cc })
]

Move-IsDoomed : {p q : TaskPool} (r : ℕ) → Move p q → IsDoomed r p → IsDoomed r q
Move-IsDoomed r stays h = h
Move-IsDoomed r (submits t) h =
    unfold submit is_canceled in
    record { stored = omega arith; canceled = ground (arith, h.canceled); idle = h.idle }
Move-IsDoomed r (refuses t) h =
    unfold refuse is_canceled in
    record { stored = omega arith; canceled = ground (arith, h.canceled); idle = h.idle }
Move-IsDoomed {p} r (marks picks) h = mark-IsDoomed r picks p h
Move-IsDoomed {p} r (ends picks s) h = end-IsDoomed r s (mark picks p) (mark-IsDoomed r picks p h)
Move-IsDoomed {p} r begins_one h = begin-IsDoomed r p h
Move-IsDoomed {p} r finishes_one h = finish-IsDoomed r p h

pub data Steps (w : WorkerPool) : WorkerPool → Type 0 where
  no_step : Steps w w
  then_step : {x y : WorkerPool} → Steps w x → Step x y → Steps w y

Steps-IsDoomed :
    (owner : String) (r : ℕ) (p : TaskPool) {w x : WorkerPool}
    → get w.user_pools owner ≡ some p
    → IsDoomed r p
    → Steps w x
    → (q : TaskPool) × (get x.user_pools owner ≡ some q) × IsDoomed r q
Steps-IsDoomed owner r p e h no_step = (p, e, h)
Steps-IsDoomed owner r p e h (then_step steps st) =
    let (q, f, k) = Steps-IsDoomed owner r p e h steps in
    let m = Step-Moved owner q _ f st in (m.pool, m.found, Move-IsDoomed r m.move k)

-- A task that is cancelled while it waits never runs, whatever steps follow.
pub canceled_never_runs :
    (owner : String) (r : ℕ) (p q : TaskPool) {w x : WorkerPool}
    → get w.user_pools owner ≡ some p
    → IsDoomed r p
    → Steps w x
    → get x.user_pools owner ≡ some q
    → q.running ≢ some r
canceled_never_runs owner r p q e h steps f =
    let (q', f', k) = Steps-IsDoomed owner r p e h steps in λ run. k.idle (cc (f, f', run))
