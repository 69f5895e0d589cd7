-- ===== src/Persistence.antt =====
-- internal/infrastructure/persistence/postgres/run_repository.go and event_store.go: the rows of
-- runs, the event streams, the events and the outbox, each method as one transaction. A JSON column
-- holds the value itself, and a NULL text, which is read as the empty text, is that. A statement
-- that fails for lack of the server is not modelled: the transaction then changes nothing.
pub mod Sessions
pub mod Writes
pub mod Loaded
pub mod Copies
pub mod Merged
pub mod Histories
pub mod EventSourcing
pub mod Conflicts
pub mod Versions
mod Tests
use duragraph.Base.{
  ℕ, zero, suc, ◌+◌, ◌≡◌, Option, none, some, List, [], ◌∷◌, ◌++◌, String, if◌then◌else◌, ◌==◌,
}
use duragraph.Base.Text.{◌=ₛ◌}
use duragraph.Base.Dict.{Dict, lookup, insert}
use duragraph.Base.Errors.{Result, ok, err, not_found}
use duragraph.Run.{Run, increment_version, clear_events}
use duragraph.Run.Statuses.{to_string}
use duragraph.Run.Events.{Event, event_type}
use duragraph.Run.Load.{RunData, reconstruct_from_data}
use duragraph.Run.RoundTrip.{row}

pub record Stream : Type 0 where
  pub stream_id : String
  pub version : ℕ

pub record EventRow : Type 0 where
  pub event_id : String
  pub stream_id : String
  pub aggregate_id : String
  pub event_version : ℕ
  pub payload : Event

-- A new row of the outbox, with the columns that the event store writes.
pub record OutboxRow : Type 0 where
  pub event_id : String
  pub aggregate_id : String
  pub event_type : String
  pub payload : Event

-- The streams of runs by the id of the run: it is unique, with the aggregate type.
pub record Db : Type 0 where
  pub runs : Dict RunData
  pub streams : Dict Stream
  pub events : List EventRow
  pub outbox : List OutboxRow

-- `INSERT ... ON CONFLICT DO UPDATE ... RETURNING stream_id`, and the version of that stream.
abbrev pub existing : String → Option Stream → Stream
existing sid none = record { stream_id = sid; version = 0 }
existing sid (some s) = s

-- The trigger `increment_version_on_event`.
unfoldable pub increment_stream : Option Stream → Stream → Stream
increment_stream none s = record s { version = s.version + 1 }
increment_stream (some t) s = record t { version = t.version + 1 }

-- One round of the loop of `saveEventsWithTx`: the event, its outbox row, and the trigger.
unfoldable pub insert_event : String → Stream → String → ℕ → Event → Db → Db
unfolding increment_stream
insert_event event_id s aggregate version e db = record db {
  events =
      db.events
      ++ record {
        event_id = event_id;
        stream_id = s.stream_id;
        aggregate_id = aggregate;
        event_version = version;
        payload = e;
      }
        ∷ [];
  outbox =
      db.outbox
      ++ record {
        event_id = event_id;
        aggregate_id = aggregate;
        event_type = event_type e;
        payload = e;
      }
        ∷ [];
  streams = insert aggregate (increment_stream (lookup aggregate db.streams) s) db.streams;
}

-- `uuid i` is the new id of the i-th event.
unfoldable pub insert_events : (ℕ → String) → Stream → String → ℕ → List Event → Db → Db
unfolding insert_event
insert_events uuid s aggregate i [] db = db
insert_events uuid s aggregate i (e ∷ es) db =
    insert_events uuid s aggregate (suc i) es
      (insert_event (uuid i) s aggregate (s.version + i + 1) e db)

-- `saveEventsWithTx`; `sid` is the new stream id.
unfoldable pub save_events : (ℕ → String) → String → String → List Event → Db → Db
unfolding insert_events
save_events uuid sid aggregate [] db = db
save_events uuid sid aggregate (e ∷ es) db =
    let s = existing sid (lookup aggregate db.streams) in
    insert_events uuid s aggregate 0 (e ∷ es)
      (record db { streams = insert aggregate s db.streams })

-- The events that were handed to the store for an aggregate, in the order in which they were. It is
-- what the theorems observe of the table, and no operation of the code.
unfoldable pub logged_events : String → List EventRow → List Event
logged_events aggregate [] = []
logged_events aggregate (r ∷ rs) =
    let rest = logged_events aggregate rs in
    if r.aggregate_id =ₛ aggregate then r.payload ∷ rest else rest

-- The insertion leaves out the columns that a new run has empty.
abbrev pub new_row : Run → RunData
new_row r = record (row r) {
  output = none;
  error_message = "";
  started_at = none;
  completed_at = none;
}

-- The error of the unique key, wrapped as an internal one, and the one of a lost race, with the id.
pub data Failure : Type 0 where
  duplicate_key : Failure
  conflict : String → Failure

-- `Save`: the key of the table is the id of the run. The run comes back as the caller has it then.
unfoldable pub save : (ℕ → String) → String → Run → Db → Db × Run × Option Failure
save uuid sid r db = elim (lookup r.id db.runs) [
  | some old ↦ (db, r, some duplicate_key)
  | none ↦ (
    save_events uuid sid r.id r.events (record db { runs = insert r.id (new_row r) db.runs }),
    clear_events r,
    none,
  )
]

unfoldable pub find_by_id : String → Db → Result Run
find_by_id id db = elim (lookup id db.runs) [
  | none ↦ err (not_found "run" id)
  | some d ↦ ok (reconstruct_from_data d)
]

-- The columns that `Update` writes. The trigger of the table then sets `updated_at` to the time of the
-- database, which is taken to be the time the run has. The column of the version is a 32-bit number
-- in the table and a number without a bound here.
unfoldable pub updated_row : Run → RunData → RunData
unfolding to_string
updated_row r d = record d {
  status = to_string r.status;
  output = r.output;
  error_message = r.error_message;
  metadata = r.metadata;
  started_at = r.started_at;
  completed_at = r.completed_at;
  updated_at = r.updated_at;
  worker_id = r.worker_id;
  retry_count = r.retry_count;
  lease_expires_at = r.lease_expires_at;
  last_heartbeat_at = r.last_heartbeat_at;
  version = r.version;
  lease_epoch = r.lease_epoch;
}

-- `WHERE id = $12 AND version = $15`
unfoldable pub matching : ℕ → Option RunData → Option RunData
matching expected none = none
matching expected (some d) = if d.version == expected then some d else none

-- `Update`. The version of the caller's run is increased also when the row is not updated.
unfoldable pub update : (ℕ → String) → String → Run → Db → Db × Run × Option Failure
update uuid sid r db =
    let r' = increment_version r in
    elim (matching r.version (lookup r.id db.runs)) [
      | none ↦ (db, r', some (conflict r.id))
      | some d ↦ (
        save_events uuid sid r.id r.events
            (record db { runs = insert r.id (updated_row r' d) db.runs }),
        clear_events r',
        none,
      )
    ]
