-- ===== src/BackupRun/Paced.antt =====
-- What the progress of a run is bounded by.
use backup_server.Base.{
  and-true, ℕ, ◌+◌, ◌≤◌, ◌<◌, ◌≡◌, ◌≢◌, true, not, ◌&&◌, Option, none, some, List, [], ◌∷◌, ◌++◌,
  ◌==◌, leb→le, arith, Bool-cases, inl, inr, All,
}
use backup_server.BackupRun.Progress.{
  Tracker, Callback, Sent, step, last, interval, is_due, paced, restore_callback,
}

-- All that a sequence of calls sends.
abbrev pub sent_by :
    (Callback → Tracker → Tracker × List Sent) → List Callback → Tracker → List Sent
sent_by f [] s = []
sent_by f (c ∷ l) s = let (t, out) = f c s in out ++ sent_by f l t

abbrev pub Since : Option ℕ → ℕ → Type 0
Since none now = Unit {0}
Since (some t) now = t + interval ≤ now

-- From the step at the time `t` with the part `p` on, every step comes at least five seconds after
-- the one before it, and with another part.
abbrev pub Spaced : Tracker → List Sent → Type 0
Spaced s [] = Unit {0}
Spaced s (last v ∷ l) = Spaced s l
Spaced s (step now v ∷ l) =
    Since s.time now × (v ≢ s.percent) × Spaced (record { percent = v; time = some now }) l

abbrev pub value : Sent → ℕ
value (step now v) = v
value (last v) = v

is_due-Since : (now : ℕ) (t : Option ℕ) → is_due now t ≡ true → Since t now
is_due-Since now none h = tt
is_due-Since now (some t) h = leb→le _ _ h

is_another : (a b : ℕ) → not (a == b) ≡ true → b ≢ a
is_another a b h = ground arith

paced-Spaced :
    (c : Callback) (s : Tracker) (rest : Tracker → List Sent)
    → ((t : Tracker) → Spaced t (rest t))
    → Spaced s ((paced c s).1 ++ rest (paced c s).0)
unfolding paced
paced-Spaced c s rest h = elim (Bool-cases (is_due c.now s.time && not (s.percent == c.percent))) [
  | inr n ↦ rw n (h s)
  | inl y ↦
      let (due, differs) = and-true _ _ y in
      rw y (is_due-Since c.now s.time due, is_another s.percent c.percent differs, h _)
]

restore_callback-Spaced :
    (c : Callback) (s : Tracker) (rest : Tracker → List Sent)
    → ((t : Tracker) → Spaced t (rest t))
    → Spaced s ((restore_callback c s).1 ++ rest (restore_callback c s).0)
unfolding restore_callback
restore_callback-Spaced c s rest h = elim (Bool-cases c.done) [
  | inl y ↦ rw y (h s)
  | inr n ↦ rw n (paced-Spaced c s rest h)
]

-- The steps of a restore come at least five seconds after one another, each with another part.
pub restore_steps-Spaced :
    (l : List Callback) (s : Tracker) → Spaced s (sent_by restore_callback l s)
restore_steps-Spaced [] s = tt
restore_steps-Spaced (c ∷ l) s =
    restore_callback-Spaced c s (λ t. sent_by restore_callback l t) (λ t. restore_steps-Spaced l t)

abbrev pub Below : ℕ → List Sent → Type 0
Below n l = All (λ x. value x < n) l
