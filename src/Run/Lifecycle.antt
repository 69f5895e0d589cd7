-- ===== src/Run/Lifecycle.antt =====
-- What holds of a run between two commands: methods of internal/domain/run/run.go, in any order.
use duragraph.Base.{
  ℕ, ◌≡◌, ◌≢◌, Bool, true, false, Option, none, some, List, [], ◌∷◌, String, arith,
}
use duragraph.Base.Value.{GoMap}
use duragraph.Base.Errors.{ok}
use duragraph.Run.{
  Run, RunOptions, new_run, start, complete, fail, cancel, require_action, resume,
  increment_version, assign_to_worker, worker_heartbeat, increment_retry,
}
use duragraph.Run.Statuses.{
  Status, queued, in_progress, requires_action, completed, failed, cancelled, is_terminal,
  can_transition_to,
}
use duragraph.Run.Commands.{Command, begin, execute, execute_all}

abbrev is_some {ℓ} : {A : Type ℓ} → Option A → Bool
is_some none = false
is_some (some _) = true

-- The six statuses that a run made by its methods can have.
abbrev pub is_stored : Status → Bool
is_stored queued = true
is_stored in_progress = true
is_stored requires_action = true
is_stored completed = true
is_stored failed = true
is_stored cancelled = true
is_stored _ = false

pub record IsConsistent (r : Run) : Type 0 where
  pub stored : is_stored r.status ≡ true
  pub finished : is_some r.completed_at ≡ is_terminal r.status
  pub output_done : r.output ≢ none → r.status ≡ completed
  pub error_failed : r.error_message ≢ "" → r.status ≡ failed

-- A new run is consistent.
pub new_run-IsConsistent :
    (now : ℕ) (id thread assistant : String) (input : GoMap) (opts : List RunOptions) {r : Run}
    → new_run now id thread assistant input opts ≡ ok r
    → IsConsistent r
unfolding new_run is_terminal
new_run-IsConsistent now id thread assistant input opts h = ground arith

-- No command breaks the consistency of a run.
pub execute-IsConsistent : (c : Command) (r : Run) → IsConsistent r → IsConsistent (execute c r).0
unfolding execute start complete fail cancel require_action resume increment_version
    assign_to_worker worker_heartbeat increment_retry is_terminal can_transition_to
execute-IsConsistent (begin t) r h = ground arith
execute-IsConsistent _ r h = ground arith

execute_all-IsConsistent :
    (cs : List Command) (r : Run) → IsConsistent r → IsConsistent (execute_all cs r)
unfolding execute_all
execute_all-IsConsistent [] r h = h
execute_all-IsConsistent (c ∷ cs) r h =
    execute_all-IsConsistent cs (execute c r).0 (execute-IsConsistent c r h)

-- A run that `NewRun` made is consistent after any commands: its status is one of six, it has a
-- completion time exactly when its status is terminal, an output only if it is completed, and an
-- error message only if it is failed.
pub run_history-IsConsistent :
    (now : ℕ) (id thread assistant : String) (input : GoMap) (opts : List RunOptions) {r : Run}
    (cs : List Command)
    → new_run now id thread assistant input opts ≡ ok r
    → IsConsistent (execute_all cs r)
run_history-IsConsistent now id thread assistant input opts cs h =
    execute_all-IsConsistent cs _ (new_run-IsConsistent now id thread assistant input opts h)

-- A command that returns an error leaves the run as it was.
pub execute_error_unchanged : (c : Command) (r : Run) → (execute c r).1 ≢ none → (execute c r).0 ≡ r
unfolding execute start complete fail cancel require_action resume
execute_error_unchanged (begin t) r h = ground arith
execute_error_unchanged _ r h = ground arith

-- What a terminal run keeps whatever is called.
pub record SameEnd (a b : Run) : Type 0 where
  pub status : a.status ≡ b.status
  pub output : a.output ≡ b.output
  pub error_message : a.error_message ≡ b.error_message
  pub completed_at : a.completed_at ≡ b.completed_at
  pub events : a.events ≡ b.events

execute-SameEnd : (c : Command) (r : Run) → is_terminal r.status ≡ true → SameEnd (execute c r).0 r
unfolding execute start complete fail cancel require_action resume increment_version
    assign_to_worker worker_heartbeat increment_retry can_transition_to
execute-SameEnd (begin t) r h = ground arith
execute-SameEnd _ r h = ground arith

-- After a terminal status no sequence of commands changes the status, the output, the error, the
-- completion time or the event log.
pub execute_all-SameEnd :
    (cs : List Command) (r : Run) → is_terminal r.status ≡ true → SameEnd (execute_all cs r) r
unfolding execute_all
execute_all-SameEnd [] r h = ground arith
execute_all-SameEnd (c ∷ cs) r h =
    let same = execute-SameEnd c r h in
    let still : is_terminal (execute c r).0.status ≡ true = rw same.status h in
    let later = execute_all-SameEnd cs (execute c r).0 still in ground arith
