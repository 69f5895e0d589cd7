-- ===== src/Run.antt =====
-- internal/domain/run/run.go: the run aggregate. A method that mutates `*Run` returns the new
-- record, with the error where the Go method returns one. `time.Now()` and the new UUID are
-- arguments; `startedAt` and the other `*time.Time` fields are options.
pub mod Statuses
pub mod Events
pub mod Commands
pub mod Replay
pub mod Lifecycle
pub mod Diagram
pub mod History
pub mod Unrecorded
pub mod Load
pub mod RoundTrip
pub mod Leases
pub mod Resumption
pub mod Aliases
mod Tests
use duragraph.Base.{ℕ, ◌+◌, Option, none, some, List, [], ◌∷◌, ◌++◌, String, if◌then◌else◌, inc_int}
use duragraph.Base.Text.{◌=ₛ◌}
use duragraph.Base.Value.{GoMap, or_empty}
use duragraph.Base.Errors.{DomainError, Result, ok, err, invalid_input, invalid_state}
use Statuses.{
  Status, queued, in_progress, requires_action, completed, failed, cancelled, to_string,
  can_transition_to,
}
use Events.{
  RunCreated, Event, created, started, run_completed, run_failed, run_cancelled,
  run_requires_action, run_resumed,
}

pub record Run : Type 0 where
  pub id : String
  pub thread_id : String
  pub assistant_id : String
  pub status : Status
  pub input : GoMap
  pub output : GoMap
  pub config : GoMap
  pub error_message : String
  pub metadata : GoMap
  pub multitask_strategy : String
  pub created_at : ℕ
  pub started_at : Option ℕ
  pub completed_at : Option ℕ
  pub updated_at : ℕ
  pub worker_id : String
  pub retry_count : ℕ
  pub lease_expires_at : Option ℕ
  pub last_heartbeat_at : Option ℕ
  pub version : ℕ
  pub lease_epoch : ℕ
  pub events : List Event

-- `&Run{events: ...}`: every other field has Go's zero value; the zero status is the empty text.
abbrev pub zero_run : Run
zero_run = record {
  id = "";
  thread_id = "";
  assistant_id = "";
  status = Status.other "";
  input = none;
  output = none;
  config = none;
  error_message = "";
  metadata = none;
  multitask_strategy = "";
  created_at = 0;
  started_at = none;
  completed_at = none;
  updated_at = 0;
  worker_id = "";
  retry_count = 0;
  lease_expires_at = none;
  last_heartbeat_at = none;
  version = 0;
  lease_epoch = 0;
  events = [];
}

pub record RunOptions : Type 0 where
  pub config : GoMap
  pub metadata : GoMap
  pub multitask_strategy : String

-- A method's result: the receiver afterwards, and the error.
abbrev pub Outcome : Type 0
Outcome = Run × Option DomainError

unfoldable pub or_reject : String → String
or_reject s = if s =ₛ "" then "reject" else s

unfoldable pub record_event : Run → Event → Run
record_event r e = record r { events = r.events ++ e ∷ [] }

abbrev pub zero_options : RunOptions
zero_options = record { config = none; metadata = none; multitask_strategy = "" }

-- `opts[0]`, or the zero options where none are given.
abbrev pub first_options : List RunOptions → RunOptions
first_options [] = zero_options
first_options (o ∷ _) = o

-- `id` is the new UUID.
unfoldable pub new_run : ℕ → String → String → String → GoMap → List RunOptions → Result Run
unfolding or_empty or_reject record_event
new_run now id thread_id assistant_id input opts =
    if thread_id =ₛ ""
    then err (invalid_input "thread_id" "thread_id is required")
    else if assistant_id =ₛ ""
    then err (invalid_input "assistant_id" "assistant_id is required")
    else let options = first_options opts in
      let config = or_empty options.config in
      let metadata = or_empty options.metadata in
      let strategy = or_reject options.multitask_strategy in
      let r = record zero_run {
        id = id;
        thread_id = thread_id;
        assistant_id = assistant_id;
        status = queued;
        input = input;
        config = config;
        metadata = metadata;
        multitask_strategy = strategy;
        created_at = now;
        updated_at = now;
        version = 1;
      } in
      ok (
        record_event r (
          created (record {
            run_id = id;
            thread_id = thread_id;
            assistant_id = assistant_id;
            input = input;
            config = config;
            metadata = metadata;
            multitask_strategy = strategy;
            occurred_at = now;
          })))

unfoldable pub increment_version : Run → Run
increment_version r = record r { version = inc_int r.version }

-- A lease lasts `d` from `now`.
unfoldable pub assign_to_worker : ℕ → String → ℕ → Run → Run
assign_to_worker now worker d r = record r {
  worker_id = worker;
  lease_expires_at = some (now + d);
  last_heartbeat_at = some now;
  lease_epoch = inc_int r.lease_epoch;
  updated_at = now;
}

unfoldable pub worker_heartbeat : ℕ → ℕ → Run → Run
worker_heartbeat now d r = record r {
  lease_expires_at = some (now + d);
  last_heartbeat_at = some now;
  updated_at = now;
}

unfoldable pub increment_retry : ℕ → Run → Run
increment_retry now r = record r {
  retry_count = inc_int r.retry_count;
  worker_id = "";
  lease_expires_at = none;
  last_heartbeat_at = none;
  lease_epoch = inc_int r.lease_epoch;
  updated_at = now;
}

abbrev refuse : Run → String → Outcome
refuse r attempted = (r, some (invalid_state (to_string r.status) attempted))

unfoldable pub start : ℕ → Run → Outcome
unfolding record_event
start now r =
    let r' = record r { status = in_progress; started_at = some now; updated_at = now } in
    if can_transition_to r.status in_progress
    then (record_event r' (started r.id now), none)
    else refuse r "start"

unfoldable pub complete : ℕ → GoMap → Run → Outcome
unfolding record_event
complete now out r =
    let r' = record r {
      status = completed;
      output = out;
      completed_at = some now;
      updated_at = now;
    } in
    if can_transition_to r.status completed
    then (record_event r' (run_completed r.id out now), none)
    else refuse r "complete"

unfoldable pub fail : ℕ → String → Run → Outcome
unfolding record_event
fail now message r =
    let r' = record r {
      status = failed;
      error_message = message;
      completed_at = some now;
      updated_at = now;
    } in
    if can_transition_to r.status failed
    then (record_event r' (run_failed r.id message now), none)
    else refuse r "fail"

unfoldable pub cancel : ℕ → String → Run → Outcome
unfolding record_event
cancel now reason r =
    let r' = record r { status = cancelled; completed_at = some now; updated_at = now } in
    if can_transition_to r.status cancelled
    then (record_event r' (run_cancelled r.id reason now), none)
    else refuse r "cancel"

unfoldable pub require_action : ℕ → String → String → List GoMap → Run → Outcome
unfolding record_event
require_action now interrupt reason calls r =
    let r' = record r { status = requires_action; updated_at = now } in
    if can_transition_to r.status requires_action
    then (record_event r' (run_requires_action r.id interrupt reason calls now), none)
    else refuse r "requires_action"

unfoldable pub resume : ℕ → String → List GoMap → Run → Outcome
unfolding record_event
resume now interrupt outputs r =
    let r' = record r { status = in_progress; updated_at = now } in
    if can_transition_to r.status in_progress
    then (record_event r' (run_resumed r.id interrupt outputs now), none)
    else refuse r "resume"

unfoldable pub clear_events : Run → Run
clear_events r = record r { events = [] }
