-- ===== src/Worker/Moves.antt =====
-- What one step does to the pool of one owner, and that a task cancelled before it began never
-- runs.
use backup_server.Base.{
  ℕ, String, ◌≡◌, ◌⊎◌, refl, Bool, true, false, ◌||◌, Option, none, some, arith, str_eq, eq_iff,
  get, put, get-put, Bool-cases, Option-cases, inl, inr,
}
use mathlib.Core.Path.{subst}
use backup_server.Worker.Types.{
  Job, Task, TaskPool, WorkerPool, get_or_create_user_pool, is_of_backup, is_of_snapshot,
  is_of_restore,
}
use backup_server.Worker.Add.{
  submit, refuse, exists_task, add_task, add_backup_task, add_restore_task, new_backup_task,
  new_restore_task,
}
use backup_server.Worker.Cancel.{
  Outcome, returned, pools_after, mark, store, stop_backup, stop_restore, end_context,
  cancel_backup, cancel_snapshot, cancel_restore,
}
use backup_server.Worker.Life.{begin, finish}
use backup_server.Worker.Reach.{
  at_pool, Step, adds_backup, adds_restore, cancels_backup, cancels_snapshot, cancels_restore,
  begins, finishes,
}

-- The changes of one pool.
pub data Move (p : TaskPool) : TaskPool → Type 0 where
  stays : Move p p
  submits : (t : Task) → Move p (submit t p)
  refuses : (t : Task) → Move p (refuse t p)
  marks : (picks : Job → Bool) → Move p (mark picks p)
  ends : (picks : Job → Bool) (r : ℕ) → Move p (end_context r (mark picks p))
  begins_one : Move p (begin p)
  finishes_one : Move p (finish p)

-- The owner's pool is still there, and was changed by a move.
pub record Moved (owner : String) (p : TaskPool) (x : WorkerPool) : Type 0 where
  pub pool : TaskPool
  pub found : get x.user_pools owner ≡ some pool
  pub move : Move p pool

module _ (owner : String) (p : TaskPool) (w : WorkerPool)
    (e : get w.user_pools owner ≡ some p) where
  unmoved : Moved owner p w
  unmoved = record { pool = p; found = e; move = stays }

  -- A changed pool is stored for one owner; the pools of others stay.
  put-Moved :
      (o : String) (p' q : TaskPool) (x : WorkerPool)
      → get w.user_pools o ≡ some p'
      → Move p' q
      → x.user_pools ≡ put w.user_pools o q
      → Moved owner p x
  put-Moved o p' q x f m h = elim (Bool-cases (str_eq o owner)) [
    | inl same ↦ record {
      pool = q;
      found = rw (h, get-put, same);
      move = subst (λ r. Move r q) (cc (f, e, (eq_iff o owner).0 same)) m;
    }
    | inr other ↦ record { pool = p; found = rw (h, get-put, other) e; move = stays }
  ]

  -- Pools stored for another owner.
  put-other_Moved :
      (o : String) (q : TaskPool) (x y : WorkerPool)
      → str_eq o owner ≡ false
      → get x.user_pools owner ≡ some p
      → y.user_pools ≡ put x.user_pools o q
      → Moved owner p y
  put-other_Moved o q x y other h k = record {
    pool = p;
    found = rw (k, get-put, other) h;
    move = stays;
  }

  at_pool-Moved :
      (f : TaskPool → TaskPool) (o : String)
      → ((p' : TaskPool) → Move p' (f p'))
      → Moved owner p (at_pool f o w)
  at_pool-Moved f o m = elim (Option-cases (get w.user_pools o)) [
    | inl n ↦ rw (n, at_pool) unmoved
    | inr g ↦ rw (g.1, at_pool) (put-Moved o g.0 (f g.0) _ g.1 (m g.0) refl)
  ]

  created-found :
      (o : String)
      → str_eq o owner ≡ false
      → get (get_or_create_user_pool o w).1.user_pools owner ≡ some p
  unfolding get_or_create_user_pool
  created-found o other = elim (Option-cases (get w.user_pools o)) [
    | inl n ↦ rw (n, get_or_create_user_pool, get-put, other) e
    | inr g ↦ rw (g.1, get_or_create_user_pool) e
  ]

  add_task-other :
      (accepted : Bool) (t : Task)
      → str_eq t.owner owner ≡ false
      → Moved owner p (add_task accepted t w).1
  unfolding add_task
  add_task-other true t other =
      put-other_Moved t.owner _ (get_or_create_user_pool t.owner w).1 _ other
        (created-found t.owner other) refl
  add_task-other false t other =
      put-other_Moved t.owner _ (get_or_create_user_pool t.owner w).1 _ other
        (created-found t.owner other) refl

  found_as : (o : String) → str_eq o owner ≡ true → get w.user_pools o ≡ some p
  found_as o same = cc (e, (eq_iff o owner).0 same)

  existing : (o : String) → str_eq o owner ≡ true → get_or_create_user_pool o w ≡ (p, w)
  unfolding get_or_create_user_pool
  existing o same = rw (found_as o same, get_or_create_user_pool)

  add_task-same :
      (accepted : Bool) (t : Task)
      → str_eq t.owner owner ≡ true
      → Moved owner p (add_task accepted t w).1
  unfolding add_task
  add_task-same true t same =
      rw (existing t.owner same)
        (put-Moved t.owner p (submit t p) _ (found_as t.owner same) (submits t) refl)
  add_task-same false t same =
      rw (existing t.owner same)
        (put-Moved t.owner p (refuse t p) _ (found_as t.owner same) (refuses t) refl)

  add_task-Moved : (accepted : Bool) (t : Task) → Moved owner p (add_task accepted t w).1
  add_task-Moved accepted t = elim (Bool-cases (str_eq t.owner owner)) [
    | inl same ↦ add_task-same accepted t same
    | inr other ↦ add_task-other accepted t other
  ]

  add_backup_task-Moved :
      (accepted : Bool) (o b s : String) → Moved owner p (add_backup_task accepted o b s w).1
  unfolding add_backup_task
  add_backup_task-Moved accepted o b s = elim (Bool-cases (exists_task o b w)) [
    | inl h ↦ rw h unmoved
    | inr h ↦ rw h (elim (Bool-cases (str_eq b "" || str_eq s "")) [
      | inl k ↦ rw k unmoved
      | inr k ↦ rw k (add_task-Moved accepted (new_backup_task o b s))
    ])
  ]

  add_restore_task-Moved :
      (accepted : Bool) (o r : String) → Moved owner p (add_restore_task accepted o r w).1
  unfolding add_restore_task
  add_restore_task-Moved accepted o r = elim (Bool-cases (str_eq r "")) [
    | inl k ↦ rw k unmoved
    | inr k ↦ rw k (add_task-Moved accepted (new_restore_task o r))
  ]

  -- The pool is marked, and the active task is stopped if there is one.
  cancel-Moved :
      (o : String) (picks : Job → Bool) (p' : TaskPool) (stop : ℕ → Outcome) (a : Option ℕ)
      → get w.user_pools o ≡ some p'
      → ((r : ℕ)
          → ((pools_after (stop r)).user_pools ≡ put w.user_pools o (mark picks p'))
            ⊎ ((pools_after (stop r)).user_pools
                ≡ put w.user_pools o (end_context r (mark picks p'))))
      → Moved owner p
          (pools_after (elim a [ none ↦ returned (store o (mark picks p') w) | some r ↦ stop r ]))
  cancel-Moved o picks p' stop none f h = put-Moved o p' (mark picks p') _ f (marks picks) refl
  cancel-Moved o picks p' stop (some r) f h = elim (h r) [
    | inl k ↦ put-Moved o p' (mark picks p') _ f (marks picks) k
    | inr k ↦ put-Moved o p' (end_context r (mark picks p')) _ f (ends picks r) k
  ]

stop_backup-pools :
    (o : String) (picks : Job → Bool) (r : ℕ) (q : TaskPool) (w : WorkerPool)
    → ((pools_after (stop_backup o picks r q w)).user_pools ≡ put w.user_pools o q)
      ⊎ ((pools_after (stop_backup o picks r q w)).user_pools
          ≡ put w.user_pools o (end_context r q))
unfolding stop_backup end_context
stop_backup-pools o picks r q w = ground arith

stop_restore-pools :
    (o : String) (picks : Job → Bool) (r : ℕ) (q : TaskPool) (w : WorkerPool)
    → ((pools_after (stop_restore o picks r q w)).user_pools ≡ put w.user_pools o q)
      ⊎ ((pools_after (stop_restore o picks r q w)).user_pools
          ≡ put w.user_pools o (end_context r q))
unfolding stop_restore end_context
stop_restore-pools o picks r q w = ground arith

module _ (owner : String) (p : TaskPool) (w : WorkerPool)
    (e : get w.user_pools owner ≡ some p) where
  cancel_backup-Moved : (o i : String) → Moved owner p (pools_after (cancel_backup o i w))
  unfolding cancel_backup
  cancel_backup-Moved o i = elim (Option-cases (get w.user_pools o)) [
    | inl n ↦ rw (n, cancel_backup) (unmoved owner p w e)
    | inr g ↦
        rw (g.1, cancel_backup)
          (cancel-Moved owner p w e o (is_of_backup i) g.0
            (λ r. stop_backup o (is_of_backup i) r (mark (is_of_backup i) g.0) w) g.0.active g.1
            (λ r. stop_backup-pools o (is_of_backup i) r (mark (is_of_backup i) g.0) w))
  ]

  cancel_snapshot-Moved : (o i : String) → Moved owner p (pools_after (cancel_snapshot o i w))
  unfolding cancel_snapshot
  cancel_snapshot-Moved o i = elim (Option-cases (get w.user_pools o)) [
    | inl n ↦ rw (n, cancel_snapshot) (unmoved owner p w e)
    | inr g ↦
        rw (g.1, cancel_snapshot)
          (cancel-Moved owner p w e o (is_of_snapshot i) g.0
            (λ r. stop_backup o (is_of_snapshot i) r (mark (is_of_snapshot i) g.0) w) g.0.active g.1
            (λ r. stop_backup-pools o (is_of_snapshot i) r (mark (is_of_snapshot i) g.0) w))
  ]

  cancel_restore-Moved : (o i : String) → Moved owner p (pools_after (cancel_restore o i w))
  unfolding cancel_restore
  cancel_restore-Moved o i = elim (Option-cases (get w.user_pools o)) [
    | inl n ↦ rw (n, cancel_restore) (unmoved owner p w e)
    | inr g ↦
        rw (g.1, cancel_restore)
          (cancel-Moved owner p w e o (is_of_restore i) g.0
            (λ r. stop_restore o (is_of_restore i) r (mark (is_of_restore i) g.0) w) g.0.active g.1
            (λ r. stop_restore-pools o (is_of_restore i) r (mark (is_of_restore i) g.0) w))
  ]

  pub Step-Moved : {x : WorkerPool} → Step w x → Moved owner p x
  Step-Moved (adds_backup accepted o b s fresh) = add_backup_task-Moved owner p w e accepted o b s
  Step-Moved (adds_restore accepted o r fresh) = add_restore_task-Moved owner p w e accepted o r
  Step-Moved (cancels_backup o b) = cancel_backup-Moved o b
  Step-Moved (cancels_snapshot o s) = cancel_snapshot-Moved o s
  Step-Moved (cancels_restore o r) = cancel_restore-Moved o r
  Step-Moved (begins o) = at_pool-Moved owner p w e begin o (λ p'. begins_one)
  Step-Moved (finishes o) = at_pool-Moved owner p w e finish o (λ p'. finishes_one)
