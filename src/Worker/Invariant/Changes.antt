-- ===== src/Worker/Invariant/Changes.antt =====
-- Cancelling, beginning and finishing tasks keeps the invariant.
use backup_server.Base.{
  ℕ, ◌≡◌, refl, Bool, true, false, Option, none, some, List, [], ◌∷◌, arith, eq_iff, if◌then◌else◌,
  Dict, get, remove, get-remove, All, All-mono, All-zip, Bool-cases, Option-cases, inl, inr,
}
use backup_server.Worker.Types.{Job, Task, TaskPool, update, is_canceled}
use backup_server.Worker.Cancel.{range_cancel, mark, end_context}
use backup_server.Worker.Life.{clean_up, begin_task, begin, finish}
use backup_server.Worker.Invariant.{live, Differ, Linked, IsSound, Follows, Pairwise-Follows}

Follows-trans : (f g h : ℕ → Task) (r : ℕ) → Follows f g r → Follows g h r → Follows f h r
Follows-trans f g h r a b = record {
  id = cc (a.id, b.id);
  job = cc (a.job, b.job);
  canceled = λ e. a.canceled (b.canceled e);
}

mark_one-Follows :
    (b : Bool) (f : ℕ → Task) (s r : ℕ)
    → Follows f (if b then update f s (record (f s) { canceled = true }) else f) r
mark_one-Follows b f s r = record {
  id = ground arith;
  job = ground arith;
  canceled = λ e. ground arith;
}

range_cancel-Follows :
    (picks : Job → Bool) (m : Dict ℕ) (f : ℕ → Task) (r : ℕ) → Follows f (range_cancel picks m f) r
unfolding range_cancel
range_cancel-Follows picks [] f r = record { id = refl; job = refl; canceled = λ e. e }
range_cancel-Follows picks ((k, s) ∷ m) f r =
    Follows-trans f (if picks (f s).job then update f s (record (f s) { canceled = true }) else f) _
      r (mark_one-Follows (picks (f s).job) f s r)
      (range_cancel-Follows picks m
        (if picks (f s).job then update f s (record (f s) { canceled = true }) else f) r)

All-of {ℓ} : {P : ℕ → Type ℓ} → ((r : ℕ) → P r) → (l : List ℕ) → All P l
All-of h [] = tt
All-of h (r ∷ l) = (h r, All-of h l)

-- Changing the objects of a pool, in ways that keep ids and jobs and undo no cancellation.
replace-IsSound :
    (p : TaskPool) (g : ℕ → Task)
    → ((r : ℕ) → Follows p.objects g r)
    → IsSound p
    → IsSound (record p { objects = g })
replace-IsSound p g h v = record {
  stored = v.stored;
  linked =
      All-mono {Q = Linked (record p { objects = g })}
        (λ r l e. rw ((h r).id) (l ((h r).canceled e))) (live p) v.linked;
  apart = Pairwise-Follows p.objects g (live p) (All-of h (live p)) v.apart;
  active_runs = v.active_runs;
}

pub mark-IsSound : (picks : Job → Bool) (p : TaskPool) → IsSound p → IsSound (mark picks p)
unfolding mark
mark-IsSound picks p v = replace-IsSound p _ (range_cancel-Follows picks p.tasks p.objects) v

end-Follows : (f : ℕ → Task) (s r : ℕ) → Follows f (update f s (record (f s) { ended = true })) r
end-Follows f s r = record { id = ground arith; job = ground arith; canceled = λ e. ground arith }

pub end_context-IsSound : (r : ℕ) (p : TaskPool) → IsSound p → IsSound (end_context r p)
unfolding end_context
end_context-IsSound r p v = replace-IsSound p _ (end-Follows p.objects r) v

-- Deleting the entry of one task leaves the others, whose ids differ.
Linked-remove :
    (p : TaskPool) (r : ℕ) (l : List ℕ)
    → All (λ s. Differ (p.objects r) (p.objects s)) l
    → All (Linked p) l
    → All
        (λ s.
          (p.objects s).canceled ≡ false
          → get (remove p.tasks (p.objects r).id) (p.objects s).id ≡ some s)
        l
Linked-remove p r l d h =
    All-zip
      (λ s a b e. ground (
        arith,
        a.0,
        b e,
        get-remove p.tasks (p.objects r).id (p.objects s).id,
        eq_iff (p.objects r).id (p.objects s).id,
      ))
      l d h

-- The first task is gone, and no task is active.
drop-IsSound :
    (p : TaskPool) (r : ℕ) (rest : List ℕ) (waiting : List ℕ) (running : Option ℕ)
    → live p ≡ r ∷ rest
    → live (record p { waiting = waiting; running = running }) ≡ rest
    → IsSound p
    → IsSound (clean_up r (record p { waiting = waiting; running = running }))
unfolding clean_up
drop-IsSound p r rest waiting running lp lq v = record {
  stored = rw lq (rw lp at v.stored).1;
  linked = rw lq (Linked-remove p r rest (rw lp at v.apart).0 (rw lp at v.linked).1);
  apart = rw lq (rw lp at v.apart).1;
  active_runs = λ s h. cc;
}

run-IsSound :
    (p : TaskPool) (r : ℕ) (rest : List ℕ)
    → live p ≡ r ∷ rest
    → IsSound p
    → IsSound (record p { waiting = rest; active = some r; running = some r })
run-IsSound p r rest lp v = record {
  stored = rw lp at v.stored;
  linked = rw lp at v.linked;
  apart = rw lp at v.apart;
  active_runs = λ s h. h;
}

begin_task-IsSound :
    (p : TaskPool) (l : List ℕ)
    → p.waiting ≡ l
    → p.running ≡ none
    → IsSound p
    → IsSound (begin_task p l)
unfolding begin_task
begin_task-IsSound p [] w i v = v
begin_task-IsSound p (r ∷ rest) w i v = elim (Bool-cases (is_canceled p r)) [
  | inl c ↦ rw c (drop-IsSound p r rest rest p.running (ground arith) (ground arith) v)
  | inr c ↦ rw c (run-IsSound p r rest (ground arith) v)
]

pub begin-IsSound : (p : TaskPool) → IsSound p → IsSound (begin p)
unfolding begin
begin-IsSound p v = elim (Option-cases p.running) [
  | inl e ↦ rw (e, begin) (begin_task-IsSound p p.waiting refl e v)
  | inr f ↦ rw (f.1, begin) v
]

pub finish-IsSound : (p : TaskPool) → IsSound p → IsSound (finish p)
unfolding finish
finish-IsSound p v = elim (Option-cases p.running) [
  | inl e ↦ rw (e, finish) v
  | inr f ↦
      rw (f.1, finish) (drop-IsSound p f.0 p.waiting p.waiting none (ground (arith, f.1)) refl v)
]
