-- ===== src/Run/Load.antt =====
-- internal/domain/run/run.go, `RunData` and `ReconstructFromData`: a run from a database row.
use duragraph.Base.{ℕ, Option, [], ◌||◌, String, if◌then◌else◌, ◌==◌}
use duragraph.Base.Text.{◌=ₛ◌}
use duragraph.Base.Value.{GoMap, or_empty}
use duragraph.Run.{Run, or_reject}
use duragraph.Run.Statuses.{
  Status, queued, in_progress, requires_action, completed, failed, timeout, interrupted, cancelled,
}

pub record RunData : Type 0 where
  pub id : String
  pub thread_id : String
  pub assistant_id : String
  pub status : String
  pub input : GoMap
  pub output : GoMap
  pub config : GoMap
  pub error_message : String
  pub metadata : GoMap
  pub multitask_strategy : String
  pub created_at : ℕ
  pub started_at : Option ℕ
  pub completed_at : Option ℕ
  pub updated_at : ℕ
  pub worker_id : String
  pub retry_count : ℕ
  pub lease_expires_at : Option ℕ
  pub last_heartbeat_at : Option ℕ
  pub version : ℕ
  pub lease_epoch : ℕ

-- The switch on the status column; no case matches leaves the queued status.
unfoldable pub status_of_data : String → Status
status_of_data s =
    if s =ₛ "queued"
    then queued
    else if s =ₛ "in_progress"
    then in_progress
    else if s =ₛ "completed" || s =ₛ "success"
    then completed
    else if s =ₛ "failed" || s =ₛ "error"
    then failed
    else if s =ₛ "cancelled"
    then cancelled
    else if s =ₛ "requires_action"
    then requires_action
    else if s =ₛ "timeout"
    then timeout
    else if s =ₛ "interrupted"
    then interrupted
    else queued

unfoldable pub reconstruct_from_data : RunData → Run
unfolding status_of_data or_empty or_reject
reconstruct_from_data d = record {
  id = d.id;
  thread_id = d.thread_id;
  assistant_id = d.assistant_id;
  status = status_of_data d.status;
  input = d.input;
  output = d.output;
  config = or_empty d.config;
  error_message = d.error_message;
  metadata = or_empty d.metadata;
  multitask_strategy = or_reject d.multitask_strategy;
  created_at = d.created_at;
  started_at = d.started_at;
  completed_at = d.completed_at;
  updated_at = d.updated_at;
  worker_id = d.worker_id;
  retry_count = d.retry_count;
  lease_expires_at = d.lease_expires_at;
  last_heartbeat_at = d.last_heartbeat_at;
  version = if d.version == 0 then 1 else d.version;
  lease_epoch = d.lease_epoch;
  events = [];
}
