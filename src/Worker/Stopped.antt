-- ===== src/Worker/Stopped.antt =====
-- What `CancelBackup` leaves of the active task of an owner.
use backup_server.Base.{
  ℕ, String, ◌≡◌, ◌⊎◌, ◌∙◌, refl, sym, subst, ◌∷◌, Bool, true, false, none, some, get, get-put_self,
  ==_refl, Bool-cases, Option-cases, inl, inr,
}
use backup_server.Worker.Types.{
  Job, backup, restore, TaskPool, WorkerPool, is_of_backup, backup_canceled,
}
use backup_server.Worker.Cancel.{
  returned, panicked, mark, end_context, store, stop_backup, cancel_backup,
}

-- If the active task is one of the backup, its context is ended.
abbrev pub PoolEnds : String → TaskPool → Type 0
PoolEnds b p =
    (r : ℕ)
    → p.active ≡ some r
    → is_of_backup b (p.objects r).job ≡ true
    → (p.objects r).ended ≡ true

abbrev pub ActiveEnds : String → String → WorkerPool → Type 0
ActiveEnds owner b w = (p : TaskPool) → get w.user_pools owner ≡ some p → PoolEnds b p

same_pool : (p q : TaskPool) → some p ≡ some q → p ≡ q
same_pool p q h = cc

store-ActiveEnds :
    (owner b : String) (p : TaskPool) (w : WorkerPool)
    → PoolEnds b p
    → ActiveEnds owner b (store owner p w)
store-ActiveEnds owner b p w h q e =
    subst (PoolEnds b) (same_pool p q (sym (get-put_self w.user_pools owner p) ∙ e)) h

same_outcome : (v w : WorkerPool) → returned v ≡ returned w → v ≡ w
same_outcome v w h = cc

no_return : {A : Type 0} (v w : WorkerPool) → panicked v ≡ returned w → A
no_return v w h = cc

Job-cases :
    (j : Job) → ((b : String) × (s : String) × (j ≡ backup b s)) ⊎ ((i : String) × (j ≡ restore i))
Job-cases (backup b s) = inl (b, s, refl)
Job-cases (restore i) = inr (i, refl)

same_task : (r s : ℕ) → some r ≡ some s → r ≡ s
same_task r s h = cc

ended-PoolEnds :
    (b : String) (r : ℕ) (p : TaskPool) → p.active ≡ some r → PoolEnds b (end_context r p)
unfolding end_context
ended-PoolEnds b r p active s e picked =
    let same : r ≡ s = same_task r s (sym active ∙ e) in rw (same, ==_refl s) refl

other-PoolEnds :
    (b : String) (r : ℕ) (p : TaskPool)
    → p.active ≡ some r
    → is_of_backup b (p.objects r).job ≡ false
    → PoolEnds b p
other-PoolEnds b r p active other s e picked =
    let same : r ≡ s = same_task r s (sym active ∙ e) in
    let picked_r : is_of_backup b (p.objects r).job ≡ true = rw same picked in cc

idle-PoolEnds : (b : String) (p : TaskPool) → p.active ≡ none → PoolEnds b p
idle-PoolEnds b p idle s e picked = cc

mark-active : (picks : Job → Bool) (p : TaskPool) → (mark picks p).active ≡ p.active
unfolding mark
mark-active picks p = refl

stop-ActiveEnds :
    (owner b : String) (r : ℕ) (p : TaskPool) (w v : WorkerPool)
    → p.active ≡ some r
    → stop_backup owner (is_of_backup b) r p w ≡ returned v
    → ActiveEnds owner b v
unfolding stop_backup
stop-ActiveEnds owner b r p w v active h = elim (Job-cases (p.objects r).job) [
  | inr j ↦ no_return _ v (rw (j.1, stop_backup) at h)
  | inl j ↦ elim (Bool-cases (is_of_backup b (p.objects r).job)) [
    | inl y ↦
        (let y' = (rw j.2 at y) in
          let told = record w { sent = backup_canceled (p.objects r).owner j.0 j.1 ∷ w.sent } in
          subst (ActiveEnds owner b)
            (same_outcome (store owner (end_context r p) told) v (rw (j.2, y', stop_backup) at h))
            (store-ActiveEnds owner b (end_context r p) told (ended-PoolEnds b r p active)))
    | inr n ↦
        (let n' = (rw j.2 at n) in
          subst (ActiveEnds owner b) (same_outcome _ v (rw (j.2, n', stop_backup) at h))
            (store-ActiveEnds owner b p w (other-PoolEnds b r p active n)))
  ]
]

pub cancel_backup-ActiveEnds :
    (owner b : String) (w v : WorkerPool)
    → cancel_backup owner b w ≡ returned v
    → ActiveEnds owner b v
unfolding cancel_backup
cancel_backup-ActiveEnds owner b w v h = elim (Option-cases (get w.user_pools owner)) [
  | inl missing ↦
      (let h' = (rw (missing, cancel_backup) at h) in
        subst (ActiveEnds owner b) (same_outcome w v h') (λ q e r active picked. cc))
  | inr p ↦ elim (Option-cases p.0.active) [
    | inl idle ↦
        (let h' = (rw (p.1, idle, cancel_backup) at h) in
          subst (ActiveEnds owner b) (same_outcome (store owner (mark (is_of_backup b) p.0) w) v h')
            (store-ActiveEnds owner b (mark (is_of_backup b) p.0) w (
              idle-PoolEnds b (mark (is_of_backup b) p.0)
                (mark-active (is_of_backup b) p.0 ∙ idle))))
    | inr r ↦
        stop-ActiveEnds owner b r.0 (mark (is_of_backup b) p.0) w v
          (mark-active (is_of_backup b) p.0 ∙ r.1) (rw (p.1, r.1, cancel_backup) at h)
  ]
]
