-- ===== src/Persistence/EventSourcing.antt =====
-- The row of a run and its events, through the updates of several clients.
use duragraph.Base.{
  ℕ, ◌+◌, ◌^◌, ◌<◌, ◌≡◌, refl, sym, ap, ◌∙◌, none, some, List, [], ◌++◌, String, arith, length,
}
use mathlib.Core.Path.{subst}
use duragraph.Base.Dict.{lookup, insert, lookup-insert_self}
use duragraph.Base.Value.{GoMap}
use duragraph.Base.Errors.{ok}
use duragraph.Run.{Run, RunOptions, new_run}
use duragraph.Run.Statuses.{to_string}
use duragraph.Run.Load.{RunData}
use duragraph.Run.Replay.{reconstruct}
use duragraph.Run.Lifecycle.{IsConsistent, new_run-IsConsistent}
use duragraph.Run.History.{SameHistory, IsReplayed, new_run-IsReplayed, reconstruct-eq}
use duragraph.Run.RoundTrip.{row, IsFilled, new_run-IsFilled}
use duragraph.Persistence.{Db, save_events, logged_events, new_row, save}
use duragraph.Persistence.Writes.{logged_events-save_events, runs-save_events}
use duragraph.Persistence.Sessions.{Step, steps}
use duragraph.Persistence.Histories.{Holds, steps-Holds}

new_run_row :
    (now : ℕ) (id thread assistant : String) (input : GoMap) (opts : List RunOptions) {r : Run}
    → new_run now id thread assistant input opts ≡ ok r
    → (r.id ≡ id) × (r.version ≡ 1) × (new_row r ≡ row r)
unfolding new_run
new_run_row now id thread assistant input opts h = ground arith

save_accepted :
    (uuid : ℕ → String) (sid : String) (r : Run) (db : Db)
    → lookup r.id db.runs ≡ none
    → (save uuid sid r db).0
      ≡ save_events uuid sid r.id r.events (record db { runs = insert r.id (new_row r) db.runs })
unfolding save
save_accepted uuid sid r db e = rw (save, e) refl

saved-Holds :
    (uuid : ℕ → String) (sid : String) (r : Run) (k : ℕ) (db : Db)
    → IsReplayed r
    → IsConsistent r
    → IsFilled r
    → r.version ≡ 1
    → new_row r ≡ row r
    → lookup r.id db.runs ≡ none
    → logged_events r.id db.events ≡ []
    → k + 2 < 2 ^ 64
    → Holds r.id k (record { db = (save uuid sid r db).0; copies = [] })
unfolding lookup
saved-Holds uuid sid r k db replayed consistent filled version same free empty small =
    let written = record db { runs = insert r.id (new_row r) db.runs } in
    let saved = save_accepted uuid sid r db free in
    record {
      run = r;
      stored =
          ap (λ (d : Db). lookup r.id d.runs) saved
          ∙ (ap (lookup r.id) (runs-save_events uuid sid r.id r.events written)
              ∙ (lookup-insert_self r.id (new_row r) db.runs ∙ ap some same));
      logged =
          ap (λ (d : Db). logged_events r.id d.events) saved
          ∙ (logged_events-save_events uuid sid r.id r.events written
              ∙ ap (λ l. l ++ r.events) empty);
      replayed = replayed;
      consistent = consistent;
      filled = filled;
      named = refl;
      positive = omega (arith, version);
      bounded = omega (arith, version, small);
      copies = λ client c e. cc;
    }

-- Of a run that was just saved.
save-Holds :
    (now : ℕ) (id thread assistant : String) (input : GoMap) (opts : List RunOptions) {r : Run}
    (uuid : ℕ → String) (sid : String) (k : ℕ) (db : Db)
    → new_run now id thread assistant input opts ≡ ok r
    → lookup id db.runs ≡ none
    → logged_events id db.events ≡ []
    → k + 2 < 2 ^ 64
    → Holds id k (record { db = (save uuid sid r db).0; copies = [] })
save-Holds now id thread assistant input opts {r} uuid sid k db h free empty small =
    let (named, version, same) = new_run_row now id thread assistant input opts h in
    subst
      (λ i.
        lookup i db.runs ≡ none
        → logged_events i db.events ≡ []
        → Holds i k (record { db = (save uuid sid r db).0; copies = [] }))
      named
      (λ f e.
        saved-Holds uuid sid r k db (new_run-IsReplayed now id thread assistant input opts h)
          (new_run-IsConsistent now id thread assistant input opts h)
          (new_run-IsFilled now id thread assistant input opts h) version same f e small)
      free empty

-- The values that were written to the columns of a row are those of a run.
pub record Agrees (b : Run) (d : RunData) : Type 0 where
  pub id : d.id ≡ b.id
  pub thread_id : d.thread_id ≡ b.thread_id
  pub assistant_id : d.assistant_id ≡ b.assistant_id
  pub status : d.status ≡ to_string b.status
  pub input : d.input ≡ b.input
  pub output : d.output ≡ b.output
  pub config : d.config ≡ b.config
  pub error_message : d.error_message ≡ b.error_message
  pub metadata : d.metadata ≡ b.metadata
  pub multitask_strategy : d.multitask_strategy ≡ b.multitask_strategy
  pub created_at : d.created_at ≡ b.created_at
  pub started_at : d.started_at ≡ b.started_at
  pub completed_at : d.completed_at ≡ b.completed_at

row-Agrees : (b r : Run) → SameHistory b r → Agrees b (row r)
row-Agrees b r h = record {
  id = sym h.id;
  thread_id = sym h.thread_id;
  assistant_id = sym h.assistant_id;
  status = ap to_string (sym h.status);
  input = sym h.input;
  output = sym h.output;
  config = sym h.config;
  error_message = sym h.error_message;
  metadata = sym h.metadata;
  multitask_strategy = sym h.multitask_strategy;
  created_at = sym h.created_at;
  started_at = sym h.started_at;
  completed_at = sym h.completed_at;
}

-- A new run is saved in a database that has neither a row nor events of its id, and then any clients
-- load, change and update it, in any order; an update that comes too late is refused. At any time
-- the events that were handed to the store and the row tell the same history: `Reconstruct` of
-- the events, in order, gives a run with the values that were written to the columns of the row,
-- those of the lease, the retries, the version and the last update left out.
pub events_replay :
    (now : ℕ) (id thread assistant : String) (input : GoMap) (opts : List RunOptions) {r : Run}
    (uuid : ℕ → String) (sid : String) (db : Db) (xs : List Step)
    → new_run now id thread assistant input opts ≡ ok r
    → lookup id db.runs ≡ none
    → logged_events id db.events ≡ []
    → length xs + 2 < 2 ^ 64
    → let s = steps id xs (record { db = (save uuid sid r db).0; copies = [] }) in
      (b : Run) × (d : RunData) × (reconstruct (logged_events id s.db.events) ≡ ok b)
      × (lookup id s.db.runs ≡ some d)
      × Agrees b d
events_replay now id thread assistant input opts {r} uuid sid db xs h free empty small =
    let s = steps id xs (record { db = (save uuid sid r db).0; copies = [] }) in
    let done =
      steps-Holds id xs (record { db = (save uuid sid r db).0; copies = [] })
        (save-Holds now id thread assistant input opts uuid sid (length xs) db h free empty
          small) in
    (
      done.replayed.copy,
      row done.run,
      rw done.logged (reconstruct-eq done.run.events done.replayed.logged ∙ done.replayed.replayed),
      done.stored,
      row-Agrees done.replayed.copy done.run done.replayed.same,
    )
