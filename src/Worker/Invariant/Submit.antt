-- ===== src/Worker/Invariant/Submit.antt =====
-- Adding a task, accepted or refused by the pool, keeps the invariant.
use backup_server.Base.{
  ℕ, suc, ◌<◌, String, ◌≡◌, ◌≢◌, refl, true, some, List, [], ◌∷◌, ◌++◌, arith, eq_iff, put, get-put,
  get-remove, All, All-append, All-mono, All-zip, Pairwise, Pairwise-snoc,
}
use backup_server.Worker.Types.{Task, TaskPool, update}
use backup_server.Worker.Add.{submit, refuse}
use backup_server.Worker.Invariant.{
  live, live_backup, Differ, Linked, IsSound, Follows, live_backup-Follows, Pairwise-Follows,
  IsFresh, HasNone,
}

update_ne : (f : ℕ → Task) (n r : ℕ) (t : Task) → r < n → update f n t r ≡ f r
update_ne f n r t h = ground arith

update-Follows : (f : ℕ → Task) (n r : ℕ) (t : Task) → r < n → Follows f (update f n t) r
update-Follows f n r t h = record {
  id = rw (update_ne f n r t h);
  job = rw (update_ne f n r t h);
  canceled = λ e. rw (← update_ne f n r t h) e;
}

live-submit : (t : Task) (p : TaskPool) → live (submit t p) ≡ live p ++ p.allocated ∷ []
unfolding submit
live-submit t p = ground arith

Linked-put :
    (p : TaskPool) (t : Task) (r : ℕ)
    → r < p.allocated
    → Linked p r
    → (p.objects r).id ≢ t.id
    → Linked (submit t p) r
unfolding submit
Linked-put p t r lt h ne e =
    ground
      (arith, h, get-put p.tasks t.id (p.objects r).id p.allocated, eq_iff t.id (p.objects r).id)

Differ-new :
    (f g : ℕ → Task) (t : Task) (l : List ℕ)
    → All (Follows f g) l
    → All (λ r. (f r).id ≢ t.id) l
    → ((b : String) → live_backup t ≡ some b → All (λ r. live_backup (f r) ≢ some b) l)
    → All (λ r. Differ (g r) t) l
Differ-new f g t [] o h k = tt
Differ-new f g t (r ∷ l) o h k = (
  (rw (o.0.id) h.0, λ b hr ht. (k b ht).0 (live_backup-Follows f g r b o.0 hr)),
  Differ-new f g t l o.1 h.1 (λ b e. (k b e).1),
)

Follows-submit :
    (t : Task) (p : TaskPool)
    → All (λ r. r < p.allocated) (live p)
    → All (Follows p.objects (submit t p).objects) (live p)
unfolding submit
Follows-submit t p h =
    All-mono {Q = Follows p.objects (update p.objects p.allocated t)}
      (λ r lt. update-Follows p.objects p.allocated r t lt) (live p) h

objects-submit : (t : Task) (p : TaskPool) → (submit t p).objects p.allocated ≡ t
unfolding submit
objects-submit t p = ground arith

module _ (t : Task) (p : TaskPool) (v : IsSound p) (fresh : IsFresh t.id p)
    (others : HasNone t p) where
  submit-stored : All (λ r. r < (submit t p).allocated) (live (submit t p))
  unfolding submit
  submit-stored = rw live-submit (
      All-append _ (live p) (p.allocated ∷ [])
        (All-mono {Q = λ r. r < suc p.allocated} (λ r h. omega arith) (live p) v.stored)
        (omega arith, tt))

  Linked-new : Linked (submit t p) p.allocated
  unfolding submit
  Linked-new e = ground (arith, get-put p.tasks t.id t.id p.allocated, eq_iff t.id t.id)

  submit-Linked : All (Linked (submit t p)) (live (submit t p))
  submit-Linked = rw live-submit (
      All-append (Linked (submit t p)) (live p) (p.allocated ∷ [])
        (All-zip {Q = λ r. (p.objects r).id ≢ t.id} (λ r a b. Linked-put p t r a.0 a.1 b) (live p)
          (All-zip {S = λ r. (r < p.allocated) × Linked p r} (λ r a b. (a, b)) (live p) v.stored
            v.linked)
          fresh)
        (Linked-new, tt))

  submit-apart :
      Pairwise (λ r s. Differ ((submit t p).objects r) ((submit t p).objects s)) (live (submit t p))
  submit-apart = rw live-submit (
      Pairwise-snoc _ (live p) p.allocated
        (Pairwise-Follows p.objects (submit t p).objects (live p) (Follows-submit t p v.stored)
          v.apart)
        (rw objects-submit (
          Differ-new p.objects (submit t p).objects t (live p) (Follows-submit t p v.stored) fresh
            others)))

  pub submit-IsSound : IsSound (submit t p)
  submit-IsSound = record {
    stored = submit-stored;
    linked = submit-Linked;
    apart = submit-apart;
    active_runs = unfold submit in v.active_runs;
  }

live-refuse : (t : Task) (p : TaskPool) → live (refuse t p) ≡ live p
unfolding refuse
live-refuse t p = refl

Follows-refuse :
    (t : Task) (p : TaskPool)
    → All (λ r. r < p.allocated) (live p)
    → All (Follows p.objects (refuse t p).objects) (live p)
unfolding refuse
Follows-refuse t p h =
    All-mono {Q = Follows p.objects (update p.objects p.allocated (record t { ended = true }))}
      (λ r lt. update-Follows p.objects p.allocated r (record t { ended = true }) lt) (live p) h

Linked-refuse :
    (p : TaskPool) (t : Task) (r : ℕ)
    → r < p.allocated
    → Linked p r
    → (p.objects r).id ≢ t.id
    → Linked (refuse t p) r
unfolding refuse
Linked-refuse p t r lt h ne e = ground (
  arith,
  h,
  get-remove (put p.tasks t.id p.allocated) t.id (p.objects r).id,
  get-put p.tasks t.id (p.objects r).id p.allocated,
  eq_iff t.id (p.objects r).id,
)

-- A refused task leaves the pool as it was, but for the object.
pub refuse-IsSound : (t : Task) (p : TaskPool) → IsSound p → IsFresh t.id p → IsSound (refuse t p)
refuse-IsSound t p v fresh = record {
  stored =
      unfold refuse in
      All-mono {Q = λ r. r < suc p.allocated} (λ r h. omega arith) (live p) v.stored;
  linked = rw live-refuse (
      All-zip {Q = λ r. (p.objects r).id ≢ t.id} (λ r a b. Linked-refuse p t r a.0 a.1 b) (live p)
        (All-zip {S = λ r. (r < p.allocated) × Linked p r} (λ r a b. (a, b)) (live p) v.stored
          v.linked)
        fresh);
  apart = rw live-refuse (
      Pairwise-Follows p.objects (refuse t p).objects (live p) (Follows-refuse t p v.stored)
        v.apart);
  active_runs = unfold refuse in v.active_runs;
}
