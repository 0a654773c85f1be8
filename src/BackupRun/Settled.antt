-- ===== src/BackupRun/Settled.antt =====
-- How a run of a backup ends.
use backup_server.Base.{
  ℕ, ◌≡◌, subst, String, str_eq, ◌||◌, Option, none, some, Result, ok, err, ◌>>=◌, Bool-cases, inl,
  inr,
}
use backup_server.Base.Bytes.{Bytes}
use backup_server.BackupRun.Cloud.{Integration, Choice, chosen, none_chosen, panicked}
use backup_server.BackupRun.Space.{Outcome, Upload, uploaded, upload_failed}
use backup_server.BackupRun.App.{Stop}
use backup_server.BackupRun.Report.{Report}
use backup_server.BackupRun.Reported.{IsReport}
use backup_server.BackupRun.Steps.{
  Answers, Job, Ready, of_error, reported, of_space, of_choice, execute,
}

reported-IsReport : (a : Answers) (u : Upload) → IsReport (reported a u)
reported-IsReport a (uploaded s storage) = inr (λ e. cc)
reported-IsReport a (upload_failed e) = inl (λ h. cc)

ok-IsReport :
    (q p : Report) (x y : Integration)
    → IsReport q
    → ◌≡◌ {A = Result Stop (Report × Integration)} (ok (q, x)) (ok (p, y))
    → IsReport p
ok-IsReport q p x y h e = let same : q ≡ p = cc in subst IsReport same h

pub of_error-IsReport : (e : Bytes) → IsReport (of_error e)
of_error-IsReport e = inl (λ h. cc)

of_space-IsReport :
    (a : Answers) (x : Option Outcome) (p : Report) (i k : Integration)
    → ◌≡◌ {A = Result Stop (Report × Integration)} (of_space a x >>= (λ q. ok (q, k))) (ok (p, i))
    → IsReport p
of_space-IsReport a none p i k = λ h. cc
of_space-IsReport a (some (ok (s, storage))) p i k =
    ok-IsReport _ p k i (reported-IsReport a (uploaded s storage))
of_space-IsReport a (some (err e)) p i k = ok-IsReport _ p k i (of_error-IsReport _)

of_choice-IsReport :
    (a : Answers) (kind : String) (c : Choice) (p : Report) (i : Integration)
    → of_choice a kind c ≡ ok (p, i)
    → IsReport p
of_choice-IsReport a kind (chosen t k) p i =
    ok-IsReport _ p k i (reported-IsReport a (a.upload_with t))
of_choice-IsReport a kind panicked p i = λ h. cc
of_choice-IsReport a kind none_chosen p i = elim (Bool-cases (str_eq kind "awss3")) [
  | inl y ↦ rw y (λ h. cc)
  | inr n ↦ rw n (ok-IsReport _ p _ i (of_error-IsReport _))
]

-- What a run comes to has an error or an output.
pub execute-IsReport :
    (a : Answers) (j : Job) (fuel : ℕ) (r : Ready) (p : Report) (i : Integration)
    → execute a j fuel r ≡ ok (p, i)
    → IsReport p
unfolding execute
execute-IsReport a j fuel r p i = elim (Bool-cases (str_eq r.params.location.kind "space")) [
  | inl y ↦ rw y (of_space-IsReport a _ p i _)
  | inr n ↦
      elim (Bool-cases
        (str_eq r.params.location.kind "awss3" || str_eq r.params.location.kind "tencentcloud")) [
          | inl y ↦ rw (n, y) (of_choice-IsReport a r.params.location.kind _ p i)
          | inr m ↦ elim (Bool-cases (str_eq r.params.location.kind "filesystem")) [
            | inl y ↦ rw (n, m, y) (ok-IsReport _ p _ i (reported-IsReport a a.upload_to_disk))
            | inr o ↦ rw (n, m, o) (λ h. cc)
          ]
        ]
]
