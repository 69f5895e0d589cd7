-- ===== src/Service/Tests.antt =====
-- A run with a task that a worker has claimed.
use duragraph.Base.{
  Pairwise, true, inc_int, length, ◌≤◌, ℕ, ◌≡◌, refl, false, none, some, [], ◌∷◌, String, All,
  arith,
}
use duragraph.Base.Dict.{lookup, insert}
use duragraph.Run.Load.{RunData, reconstruct_from_data}
use duragraph.Run.Statuses.{is_terminal, can_transition_to}
use duragraph.Persistence.{update, matching, save_events, updated_row, find_by_id}
use duragraph.Run.{Run, cancel, increment_version}
use duragraph.Task
use duragraph.Task.{Table, claimed, is_expired}
use duragraph.Service
use duragraph.Service.{World, monitor_expired_leases}
use duragraph.Service.Sweep.{IsLate, Settled, monitor_lem}
use duragraph.Persistence.Loaded.{IsStored}
use duragraph.Service.Multitask.{
  cancel_existing, cancel_run, is_active_in, insert_newest, find_active_by_thread_id,
  apply_multitask_strategy, act, check_multitask_strategy,
}
use duragraph.Service.Multitask.Clears.{Keyed, apply_multitask_strategy_lem}

abbrev run_row : String → RunData
run_row status = record {
  id = "r1";
  thread_id = "thread";
  assistant_id = "assistant";
  status = status;
  input = none;
  output = none;
  config = some [];
  error_message = "";
  metadata = some [];
  multitask_strategy = "reject";
  created_at = 1;
  started_at = some 2;
  completed_at = none;
  updated_at = 2;
  worker_id = "";
  retry_count = 0;
  lease_expires_at = none;
  last_heartbeat_at = none;
  version = 2;
  lease_epoch = 0;
}

abbrev task : ℕ → ℕ → Task.Task
task id lease = record {
  id = id;
  run_id = "r1";
  worker_id = "w";
  status = claimed;
  graph_id = "g";
  thread_id = "thread";
  assistant_id = "assistant";
  input = none;
  config = none;
  created_at = id;
  claimed_at = some 1;
  completed_at = none;
  lease_expires_at = some lease;
  retry_count = 3;
  max_retries = 3;
  error_message = "";
}

abbrev world : String → World
world status = record {
  tasks = record { rows = task 1 50 ∷ task 2 500 ∷ []; next_id = 3 };
  db = record { runs = ("r1", run_row status) ∷ []; streams = []; events = []; outbox = [] };
}

abbrev ids_of : ℕ → String
ids_of i = "e"

stored_row : (status : String) → IsStored "r1" (run_row status) (world status).db
unfolding lookup
stored_row status = record { found = refl; named = refl; positive = λ e. cc }

monitor_lem_example :
    let rows = (monitor_expired_leases (λ i. ids_of) ids_of 100 (world "queued")).tasks.rows in
    Pairwise (Settled 100) (world "queued").tasks.rows rows × All (λ t. ¬ IsLate 100 t) rows
monitor_lem_example =
    monitor_lem (λ i. ids_of) ids_of 100 (world "queued") (((λ e. cc), tt), (tt, tt))

queued-Keyed : Keyed (world "queued")
unfolding lookup
queued-Keyed = ((stored_row "queued", refl), tt)

-- The queued run gives way to a new one.
one_active : length (find_active_by_thread_id "thread" (world "queued").db.runs) ≤ 1
unfolding find_active_by_thread_id insert_newest is_active_in
one_active = omega arith

may_proceed :
    (apply_multitask_strategy ids_of "s" 10 "thread" "interrupt" (world "queued")).0 ≡ true
unfolding apply_multitask_strategy find_active_by_thread_id insert_newest is_active_in
    check_multitask_strategy act
may_proceed = refl

-- The row of the run after its cancellation.
abbrev cancelled_row : RunData
cancelled_row = record (run_row "cancelled") {
  completed_at = some 10;
  updated_at = 10;
  version = 3;
}

row_cancelled :
    lookup "r1"
      (apply_multitask_strategy ids_of "s" 10 "thread" "interrupt" (world "queued")).2.db.runs
    ≡ some cancelled_row
unfolding lookup apply_multitask_strategy find_active_by_thread_id insert_newest is_active_in
    check_multitask_strategy act cancel_existing cancel_run find_by_id is_terminal
    reconstruct_from_data cancel can_transition_to update matching save_events insert updated_row
    increment_version inc_int
row_cancelled = refl

apply_multitask_strategy_lem_example : is_active_in "thread" cancelled_row ≡ false
apply_multitask_strategy_lem_example =
    apply_multitask_strategy_lem ids_of "s" 10 "thread" "interrupt" (world "queued") queued-Keyed
      refl one_active may_proceed "r1" cancelled_row row_cancelled

-- The run was loaded while it was in progress, and was cancelled since.
abbrev cancelled_since : World
cancelled_since = record (world "queued") {
  db = record (world "queued").db {
    runs = ("r1", record (run_row "cancelled") { version = 3 }) ∷ [];
  };
}

abbrev loaded_before : Run
loaded_before = reconstruct_from_data (run_row "in_progress")
