-- ===== src/Run/RoundTrip.antt =====
-- The values of a run as the columns of a row, and what `ReconstructFromData` makes of such values.
-- No operation of the code writes all the columns; the tables of runs are told in terms of them.
use duragraph.Base.{ℕ, ◌≡◌, refl, ◌≢◌, true, List, String, arith}
use duragraph.Base.Text.{=ₛ_iff}
use duragraph.Base.Value.{GoMap, or_empty}
use duragraph.Base.Errors.{ok}
use duragraph.Run.{
  Run, RunOptions, new_run, first_options, or_reject, clear_events, start, complete, fail, cancel,
  require_action, resume, increment_version, assign_to_worker, worker_heartbeat, increment_retry,
}
use duragraph.Run.Statuses.{Status, pending, running, to_string, is_valid, normalize, other}
use duragraph.Run.Commands.{Command, begin, execute}
use duragraph.Run.Lifecycle.{is_stored}
use duragraph.Run.Load.{RunData, status_of_data, reconstruct_from_data}

-- The row whose columns are what the getters of a run give.
abbrev pub row : Run → RunData
row r = record {
  id = r.id;
  thread_id = r.thread_id;
  assistant_id = r.assistant_id;
  status = to_string r.status;
  input = r.input;
  output = r.output;
  config = r.config;
  error_message = r.error_message;
  metadata = r.metadata;
  multitask_strategy = r.multitask_strategy;
  created_at = r.created_at;
  started_at = r.started_at;
  completed_at = r.completed_at;
  updated_at = r.updated_at;
  worker_id = r.worker_id;
  retry_count = r.retry_count;
  lease_expires_at = r.lease_expires_at;
  last_heartbeat_at = r.last_heartbeat_at;
  version = r.version;
  lease_epoch = r.lease_epoch;
}

status_of_data-to_string : (s : Status) → is_stored s ≡ true → status_of_data (to_string s) ≡ s
unfolding status_of_data to_string
status_of_data-to_string pending h = cc
status_of_data-to_string (other s) h = cc
status_of_data-to_string _ h = cc

-- What the constructor gives and no command changes: the defaults are filled in.
abbrev pub IsFilled : Run → Type 0
IsFilled r =
    (or_empty r.config ≡ r.config)
    × (or_empty r.metadata ≡ r.metadata)
    × (or_reject r.multitask_strategy ≡ r.multitask_strategy)

pub execute-IsFilled : (c : Command) (r : Run) → IsFilled r → IsFilled (execute c r).0
unfolding execute start complete fail cancel require_action resume increment_version
    assign_to_worker worker_heartbeat increment_retry
execute-IsFilled (begin t) r h = ground arith
execute-IsFilled _ r h = ground arith

pub new_run-IsFilled :
    (now : ℕ) (id thread assistant : String) (input : GoMap) (opts : List RunOptions) {r : Run}
    → new_run now id thread assistant input opts ≡ ok r
    → IsFilled r
unfolding new_run or_empty or_reject
new_run-IsFilled now id thread assistant input opts h =
    ground (arith, =ₛ_iff (first_options opts).multitask_strategy "")

pub load-row :
    (r : Run)
    → is_stored r.status ≡ true
    → IsFilled r
    → r.version ≢ 0
    → reconstruct_from_data (row r) ≡ clear_events r
unfolding reconstruct_from_data clear_events
load-row r s f v = ground (arith, status_of_data-to_string r.status)

-- A row may also hold the other spelling of a status. The status that is loaded is the same, or
-- its alias, for each of the twelve constants but `running`, which is loaded as queued.
pub status_of_data_alias :
    (s : Status)
    → is_valid s ≡ true
    → (s ≢ running → normalize (status_of_data (to_string s)) ≡ normalize s)
      × (s ≡ running → normalize (status_of_data (to_string s)) ≡ pending)
unfolding status_of_data normalize to_string is_valid
status_of_data_alias pending h = (λ _. refl, λ e. cc)
status_of_data_alias running h = (λ e. absurd (e refl), λ _. refl)
status_of_data_alias (other s) h = ground arith
status_of_data_alias _ h = (λ _. refl, λ e. cc)
