-- ===== src/Worker/Life.antt =====
-- The life of a submitted task: the function that `addTask` hands to the pool, in two steps.
use backup_server.Base.{ℕ, none, some, List, [], ◌∷◌, if◌then◌else◌, remove}
use backup_server.Worker.Types.{TaskPool, is_canceled}

-- The deferred function: the entry under the task's id is deleted, and no task is active.
unfoldable pub clean_up : ℕ → TaskPool → TaskPool
clean_up r p = record p { tasks = remove p.tasks (p.objects r).id; active = none }

-- The free worker takes the function that waits longest. A cancelled task returns at once,
-- through the deferred function; another becomes the active task and runs.
unfoldable pub begin_task : TaskPool → List ℕ → TaskPool
unfolding clean_up is_canceled
begin_task p [] = p
begin_task p (r ∷ rest) =
    if is_canceled p r
    then clean_up r (record p { waiting = rest })
    else record p { waiting = rest; active = some r; running = some r }

unfoldable pub begin : TaskPool → TaskPool
unfolding begin_task
begin p = elim p.running [ some r ↦ p | none ↦ begin_task p p.waiting ]

-- `Run` returns, or panics and is recovered: the deferred function runs either way.
unfoldable pub finish : TaskPool → TaskPool
unfolding clean_up
finish p = elim p.running [ none ↦ p | some r ↦ clean_up r (record p { running = none }) ]
