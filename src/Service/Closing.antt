-- ===== src/Service/Closing.antt =====
-- What a report does to the task of its run.
use duragraph.Base.{ℕ, ◌≡◌, refl, ◌&&◌, some, String, map, if◌then◌else◌, ◌==◌}
use duragraph.Base.Errors.{Result, ok, err}
use duragraph.Task
use duragraph.Task.{Table, is_claimed, find_by_run_id}
use duragraph.Service.{on_task}
use duragraph.Service.Retrying.{rows-or_not_found}

-- A row when the task `id` is completed, which has to be claimed for that.
abbrev pub completed_row : ℕ → ℕ → Task.Task → Task.Task
completed_row now id t =
    if t.id == id && is_claimed t
    then record t { status = Task.completed; completed_at = some now }
    else t

-- A row when the task `id` is failed, whatever its status is.
abbrev pub failed_row : ℕ → String → ℕ → Task.Task → Task.Task
failed_row now message id t =
    if t.id == id
    then record t { status = Task.failed; completed_at = some now; error_message = message }
    else t

-- The table when the task that is found for a run, if there is one, is changed in its row as `row`
-- says, and no other row is.
abbrev pub Changed : (ℕ → Task.Task → Task.Task) → Result Task.Task → Table → Table → Type 0
Changed row (err e) table table' = table' ≡ table
Changed row (ok t) table table' = table'.rows ≡ map (row t.id) table.rows

pub complete-Changed :
    (now : ℕ) (found : Result Task.Task) (table : Table)
    → Changed
        (completed_row now)
        found
        table
        (on_task (λ i t. (Task.complete now i t).0) found table)
unfolding Task.complete
complete-Changed now (err e) table = refl
complete-Changed now (ok t) table =
    rows-or_not_found (λ u. u.id == t.id && is_claimed u)
      (λ u. record u { status = Task.completed; completed_at = some now }) "" table

pub fail-Changed :
    (now : ℕ) (message : String) (found : Result Task.Task) (table : Table)
    → Changed
        (failed_row now message)
        found
        table
        (on_task (λ i t. (Task.fail now i message t).0) found table)
unfolding Task.fail
fail-Changed now message (err e) table = refl
fail-Changed now message (ok t) table =
    rows-or_not_found (λ u. u.id == t.id)
      (λ u. record u { status = Task.failed; completed_at = some now; error_message = message }) ""
      table
