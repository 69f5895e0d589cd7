-- ===== src/Persistence/Copies.antt =====
-- What the methods of a run do to a copy that was loaded without its events.
use duragraph.Base.{◌≡◌, refl, sym, ap, true, List, ◌++◌, arith}
use mathlib.Core.List.{append-nil, append_assoc}
use mathlib.Core.Path.{subst}
use duragraph.Run.{
  Run, start, complete, fail, cancel, require_action, resume, increment_version, assign_to_worker,
  worker_heartbeat, increment_retry, clear_events,
}
use duragraph.Run.Events.{Event}
use duragraph.Run.Commands.{Command, begin, bump, execute}
use duragraph.Run.Lifecycle.{IsConsistent, execute-IsConsistent}
use duragraph.Run.History.{IsReplayed, execute-IsReplayed}
use duragraph.Run.RoundTrip.{row, IsFilled, execute-IsFilled}
use duragraph.Persistence.{updated_row}
use duragraph.Persistence.Sessions.{is_method}

-- The run with events in front of its own.
abbrev pub prefixed : List Event → Run → Run
prefixed es r = record r { events = es ++ r.events }

pub prefixed-execute :
    (c : Command) (es : List Event) (r : Run)
    → (execute c (prefixed es r)).0 ≡ prefixed es (execute c r).0
unfolding execute start complete fail cancel require_action resume increment_version
    assign_to_worker worker_heartbeat increment_retry
prefixed-execute (begin t) es r = grind (arith, append_assoc)
prefixed-execute _ es r = grind (arith, append_assoc)

-- What no method changes.
pub record SameFixed (a b : Run) : Type 0 where
  pub id : a.id ≡ b.id
  pub thread_id : a.thread_id ≡ b.thread_id
  pub assistant_id : a.assistant_id ≡ b.assistant_id
  pub input : a.input ≡ b.input
  pub config : a.config ≡ b.config
  pub multitask_strategy : a.multitask_strategy ≡ b.multitask_strategy
  pub created_at : a.created_at ≡ b.created_at

pub execute-SameFixed : (c : Command) (a b : Run) → SameFixed a b → SameFixed (execute c a).0 b
unfolding execute start complete fail cancel require_action resume increment_version
    assign_to_worker worker_heartbeat increment_retry
execute-SameFixed (begin t) a b h = ground arith
execute-SameFixed _ a b h = ground arith

pub id-execute : (c : Command) (r : Run) → (execute c r).0.id ≡ r.id
unfolding execute start complete fail cancel require_action resume increment_version
    assign_to_worker worker_heartbeat increment_retry
id-execute (begin t) r = ground arith
id-execute _ r = ground arith

pub version-execute :
    (c : Command) (r : Run) → is_method c ≡ true → (execute c r).0.version ≡ r.version
unfolding execute start complete fail cancel require_action resume assign_to_worker worker_heartbeat
    increment_retry
version-execute (begin t) r h = ground arith
version-execute bump r h = cc
version-execute _ r h = ground arith

pub IsReplayed-execute :
    (c : Command) (es : List Event) (r : Run)
    → IsReplayed (prefixed es r)
    → IsReplayed (prefixed es (execute c r).0)
IsReplayed-execute c es r h =
    subst IsReplayed (prefixed-execute c es r) (execute-IsReplayed c (prefixed es r) h)

-- A copy of the run as it is stored now, with methods called on it.
pub record Draft (stored copy : Run) : Type 0 where
  pub replayed : IsReplayed (prefixed stored.events copy)
  pub fixed : SameFixed copy stored
  pub consistent : IsConsistent copy
  pub filled : IsFilled copy

pub execute-Draft : (c : Command) (r a : Run) → Draft r a → Draft r (execute c a).0
execute-Draft c r a d = record {
  replayed = IsReplayed-execute c r.events a d.replayed;
  fixed = execute-SameFixed c a r d.fixed;
  consistent = execute-IsConsistent c a d.consistent;
  filled = execute-IsFilled c a d.filled;
}

-- A fresh copy.
pub clear_events-Draft :
    (r : Run) → IsReplayed r → IsConsistent r → IsFilled r → Draft r (clear_events r)
unfolding clear_events
clear_events-Draft r h c f = record {
  replayed = subst IsReplayed (ap (λ es. record r { events = es }) (sym (append-nil r.events))) h;
  fixed = record {
    id = refl;
    thread_id = refl;
    assistant_id = refl;
    input = refl;
    config = refl;
    multitask_strategy = refl;
    created_at = refl;
  };
  consistent = record {
    stored = c.stored;
    finished = c.finished;
    output_done = c.output_done;
    error_failed = c.error_failed;
  };
  filled = f;
}

-- The run after an update.
abbrev pub merged : Run → Run → Run
merged stored copy = increment_version (prefixed stored.events copy)

pub merged_row :
    (r a : Run) → SameFixed a r → updated_row (increment_version a) (row r) ≡ row (merged r a)
unfolding updated_row increment_version
merged_row r a f = ground arith
