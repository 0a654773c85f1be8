-- ===== src/Restores/Settled.antt =====
-- What the event of a restore leaves, when one of the attempts to write it succeeds.
use backup_server.Base.{
  ℕ, zero, suc, ◌+◌, ◌<◌, ◌≡◌, ◌⊎◌, ◌∙◌, refl, ap, String, str_eq, Bool, true, false, none, some,
  Dict, get, put, get-put, ltb, ok, arith, ==_refl, Bool-cases, Result-cases, inl, inr,
}
use text.Mathlib.TextPositions.{eq_refl}
use backup_server.Worker.Types.{TaskPool, WorkerPool, is_of_restore, get_or_create_user_pool}
use backup_server.Worker.Add.{submit, add_task, add_restore_task, new_restore_task}
use backup_server.Restores.{
  Restore, World, Attempt, unread, conflict, refused, written, Answers, readable, with_phase,
  try_phase, set_phase_from, set_restore_phase, fail_restore, on_pending, by_phase, create_event,
}

-- There is a client, and one of the first five attempts is written.
pub record Writes (a : Answers) : Type 0 where
  pub client : a.has_client ≡ true
  pub step : ℕ
  pub early : step < 5
  pub succeeds : a.attempt step ≡ written

either_way :
    (x : Attempt) (now : ℕ) (id phase : String) (store : Dict Restore) (r : Restore)
    (next : Bool × Dict Restore)
    → get store id ≡ some r
    → next ≡ (true, put store id (with_phase now phase r))
    → try_phase x (get store id) now id phase store next
      ≡ (true, put store id (with_phase now phase r))
either_way unread now id phase store r next f e = e
either_way conflict now id phase store r next f e = e
either_way refused now id phase store r next f e = e
either_way written now id phase store r next f e = rw f refl

set_phase_lem :
    (a : Answers) (steps k j now : ℕ) (id phase : String) (store : Dict Restore) (r : Restore)
    → j < steps
    → a.attempt (k + j) ≡ written
    → get store id ≡ some r
    → set_phase_from a steps k now id phase store ≡ (true, put store id (with_phase now phase r))
unfolding set_phase_from
set_phase_lem a zero k j now id phase store r h s f = absurd (omega arith)
set_phase_lem a (suc steps) k zero now id phase store r h s f =
    let now_written : a.attempt k ≡ written = ap a.attempt (omega arith) ∙ s in
    rw (now_written, f, set_phase_from) refl
set_phase_lem a (suc steps) k (suc j) now id phase store r h s f =
    let later : a.attempt (suc k + j) ≡ written = ap a.attempt (omega arith) ∙ s in
    either_way (a.attempt k) now id phase store r _ f
      (set_phase_lem a steps (suc k) j now id phase store r (omega arith) later f)

module _ (a : Answers) (now started : ℕ) (w : World) (r : Restore) (v : Writes a)
    (f : get w.restores r.name ≡ some r) where
  get-fail_restore :
      (pools : WorkerPool)
      → get (fail_restore a now r (record w { pools = pools })).restores r.name
        ≡ some (with_phase now "Failed" r)
  unfolding fail_restore set_restore_phase
  get-fail_restore pools =
      let first : a.attempt (0 + v.step) ≡ written = ap a.attempt (omega arith) ∙ v.succeeds in
      rw (v.client, set_phase_lem a 5 0 v.step now r.name "Failed" w.restores r v.early first f)
        (rw (get-put, eq_refl) refl)

  at_phase :
      (phase : String)
      → r.restore_type ≡ readable
      → r.phase ≡ phase
      → create_event a now started r w
        ≡ by_phase readable phase w (fail_restore a now r w) (on_pending a now started r w)
  unfolding create_event
  at_phase phase t e =
      ap (λ x. by_phase x r.phase w (fail_restore a now r w) (on_pending a now started r w)) t
      ∙ ap (λ x. by_phase readable x w (fail_restore a now r w) (on_pending a now started r w)) e

-- Does the map of tasks of the owner hold a task of this restore?
abbrev pub queued : String → String → WorkerPool → Bool
queued owner id w = elim (get w.user_pools owner) [
  | none ↦ false
  | some p ↦ elim (get p.tasks id) [ none ↦ false | some t ↦ is_of_restore id (p.objects t).job ]
]

submitted :
    (owner id : String) (p : TaskPool) (w : WorkerPool)
    → queued owner id
        (record w { user_pools = put w.user_pools owner (submit (new_restore_task owner id) p) })
      ≡ true
unfolding submit
submitted owner id p w =
    rw (get-put, eq_refl, queued)
      (rw (get-put, eq_refl, queued) (ground (arith, ==_refl p.allocated, eq_refl id)))

added :
    (accepted : Bool) (owner id : String) (w : WorkerPool)
    → (add_task accepted (new_restore_task owner id) w).0 ≡ ok tt
    → queued owner id (add_task accepted (new_restore_task owner id) w).1 ≡ true
unfolding add_task
added true owner id w h = let (p, w') = get_or_create_user_pool owner w in submitted owner id p w'
added false owner id w h = cc

queued-add_restore_task :
    (accepted : Bool) (owner id : String) (w : WorkerPool)
    → (add_restore_task accepted owner id w).0 ≡ ok tt
    → queued owner id (add_restore_task accepted owner id w).1 ≡ true
unfolding add_restore_task
queued-add_restore_task accepted owner id w = elim (Bool-cases (str_eq id "")) [
  | inl e ↦ rw (e, add_restore_task) (λ h. cc)
  | inr n ↦ rw (n, add_restore_task) (added accepted owner id w)
]

-- A pending restore that is stored and readable is not forgotten: after its event a task of it is
-- in the map of tasks of its owner, or it is stored as failed, when there is a client and one of the
-- five attempts to write it succeeds.
pub pending_restore :
    (a : Answers) (now started : ℕ) (w : World) (r : Restore)
    → Writes a
    → get w.restores r.name ≡ some r
    → r.restore_type ≡ readable
    → r.phase ≡ "Pending"
    → (queued r.owner r.name (create_event a now started r w).pools ≡ true)
      ⊎ (get (create_event a now started r w).restores r.name ≡ some (with_phase now "Failed" r))
unfolding on_pending
pending_restore a now started w r v f t e =
    let event = at_phase a now started w r v f "Pending" t e in
    let made = add_restore_task a.accepts r.owner r.name w.pools in
    elim (Bool-cases (ltb started r.created)) [
      | inr old ↦ rw (event, old) (inr (get-fail_restore a now started w r v f w.pools))
      | inl new ↦ elim (Result-cases made.0) [
        | inl x ↦
            rw (event, new, x.1)
              (inl (queued-add_restore_task a.accepts r.owner r.name w.pools x.1))
        | inr x ↦ rw (event, new, x.1) (inr (get-fail_restore a now started w r v f made.1))
      ]
    ]
