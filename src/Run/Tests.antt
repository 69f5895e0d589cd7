-- ===== src/Run/Tests.antt =====
-- Runs of the aggregate on concrete histories.
use duragraph.Base.{◌≡◌, refl, true, none, List, [], ◌∷◌}
use duragraph.Base.Errors.{Result, ok, err}
use duragraph.Run.{
  Run, zero_run, new_run, start, complete, resume, require_action, increment_retry,
  assign_to_worker,
}
use duragraph.Run.Statuses.{in_progress, completed, is_terminal, can_transition_to}
use duragraph.Run.Commands.{
  Command, begin, finish, pause, continue, assign, retry, execute, execute_all,
}
use duragraph.Run.Replay.{reconstruct}
use duragraph.Run.Lifecycle.{IsConsistent, run_history-IsConsistent, SameEnd, execute_all-SameEnd}
use duragraph.Run.History.{SameHistory, reconstruct-execute_all}

abbrev the_run : Result Run → Run
the_run (ok r) = r
the_run (err _) = zero_run

-- A new run, and a history: a worker takes it, it starts, pauses, goes on and ends.
abbrev made : Run
made = the_run (new_run 5 "r1" "thread" "assistant" none [])

abbrev commands : List Command
commands =
    assign "w1" 30 6
    ∷ begin 7
    ∷ pause "i1" "tool" [] 8
    ∷ continue "i1" [] 9
    ∷ retry 10
    ∷ finish none 11
    ∷ []

made_ok : new_run 5 "r1" "thread" "assistant" none [] ≡ ok made
unfolding new_run
made_ok = refl

abbrev started_run : Run
started_run = (start 7 made).0

abbrev ended : Run
ended = execute_all commands made

ended_status : ended.status ≡ completed
unfolding new_run execute_all execute complete can_transition_to increment_retry resume
    require_action start assign_to_worker
ended_status = refl

ended_terminal : is_terminal ended.status ≡ true
unfolding new_run execute_all execute complete can_transition_to increment_retry resume
    require_action start assign_to_worker is_terminal
ended_terminal = refl

started_status : started_run.status ≡ in_progress
unfolding new_run start can_transition_to
started_status = refl

rebuilt_ok : reconstruct made.events ≡ ok (the_run (reconstruct made.events))
unfolding reconstruct new_run
rebuilt_ok = refl

reconstruct-execute_all_example :
    (b : Run) × (reconstruct ended.events ≡ ok b) × SameHistory b ended
reconstruct-execute_all_example =
    reconstruct-execute_all 5 "r1" "thread" "assistant" none [] commands made_ok

run_history-IsConsistent_example : IsConsistent ended
run_history-IsConsistent_example =
    run_history-IsConsistent 5 "r1" "thread" "assistant" none [] commands made_ok

execute_all-SameEnd_example : SameEnd (execute_all commands ended) ended
execute_all-SameEnd_example = execute_all-SameEnd commands ended ended_terminal
