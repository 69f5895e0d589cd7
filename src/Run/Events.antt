-- ===== src/Run/Events.antt =====
-- internal/domain/run/events.go. A point in time is a natural number; zero is Go's zero time.
use duragraph.Base.{ℕ, List, String}
use duragraph.Base.Value.{GoMap}

pub record RunCreated : Type 0 where
  pub run_id : String
  pub thread_id : String
  pub assistant_id : String
  pub input : GoMap
  pub config : GoMap
  pub metadata : GoMap
  pub multitask_strategy : String
  pub occurred_at : ℕ

-- The arguments stand in the order of the Go fields, the run's id first and the time last.
pub data Event : Type 0 where
  created : RunCreated → Event
  started : String → ℕ → Event
  run_completed : String → GoMap → ℕ → Event
  run_failed : String → String → ℕ → Event
  run_cancelled : String → String → ℕ → Event
  run_requires_action : String → String → String → List GoMap → ℕ → Event
  run_resumed : String → String → List GoMap → ℕ → Event
  -- an event of another aggregate
  foreign : Event

-- `EventType`, for the events of a run.
unfoldable pub event_type : Event → String
event_type (created e) = "run.created"
event_type (started id t) = "run.started"
event_type (run_completed id o t) = "run.completed"
event_type (run_failed id e t) = "run.failed"
event_type (run_cancelled id r t) = "run.cancelled"
event_type (run_requires_action id i r c t) = "run.requires_action"
event_type (run_resumed id i o t) = "run.resumed"
event_type foreign = ""
