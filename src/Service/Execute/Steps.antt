-- ===== src/Service/Execute/Steps.antt =====
-- The updates that an execution makes of its run, one after the other.
use duragraph.Base.{ℕ, ◌≡◌, refl, ap, ◌∙◌, true, List, [], ◌∷◌, ◌++◌, String, Option, none, some}
use mathlib.Core.Path.{subst}
use duragraph.Base.Dict.{lookup}
use duragraph.Run
use duragraph.Run.{Run, start, complete, fail, require_action, increment_version, clear_events}
use duragraph.Run.Statuses.{Status, in_progress, can_transition_to, to_string}
use duragraph.Run.Events.{Event, started}
use duragraph.Run.Load.{RunData, reconstruct_from_data}
use duragraph.Persistence
use duragraph.Persistence.{Db, Failure, find_by_id, logged_events}
use duragraph.Persistence.Loaded.{
  IsStored, Written, Tracks, loaded-Tracks, changed-Tracks, update-Tracks,
}
use duragraph.Service.Execute.{
  World, Services, Answer, finished, stored, store, accepted, run_assistant, run_started,
  execute_local,
}

-- What the database has of a run after a step that records the one event `e`.
pub record Ends (id : String) (status : Status) (e : Event) (db db' : Db) : Type 0 where
  pub row : RunData
  pub found : lookup id db'.runs ≡ some row
  pub status_is : row.status ≡ to_string status
  pub logged : logged_events id db'.events ≡ logged_events id db.events ++ e ∷ []

-- A method that is accepted: what it changes.
pub record Changes (r a : Run) (status : Status) (e : Event) : Type 0 where
  pub same_id : a.id ≡ r.id
  pub same_version : a.version ≡ r.version
  pub status_is : a.status ≡ status
  pub recorded : a.events ≡ e ∷ []

ends :
    (id : String) (r a : Run) (status : Status) (e : Event) (db db' : Db)
    → Changes r a status e
    → Written id a a.events db db'
    → Ends id status e db db'
ends id r a status e db db' c x = record {
  row = x.row;
  found = x.found;
  status_is = x.status ∙ ap to_string c.status_is;
  logged = x.logged ∙ ap (λ (es : List Event). logged_events id db.events ++ es) c.recorded;
}

abbrev pub start_run : ℕ → RunData → Run
start_run now d = (start now (reconstruct_from_data d)).0

abbrev begun_run : ℕ → Run → Run
begun_run now r = record r {
  status = in_progress;
  started_at = some now;
  updated_at = now;
  events = r.events ++ started r.id now ∷ [];
}

start_accepted :
    (now : ℕ) (r : Run)
    → can_transition_to r.status in_progress ≡ true
    → start now r ≡ (begun_run now r, none)
unfolding start
start_accepted now r h = rw h refl

pub start-Changes :
    (now : ℕ) (id : String) (d : RunData)
    → d.id ≡ id
    → can_transition_to (reconstruct_from_data d).status in_progress ≡ true
    → Changes (reconstruct_from_data d) (start_run now d) in_progress (started id now)
unfolding reconstruct_from_data
start-Changes now id d n h =
    let e = start_accepted now (reconstruct_from_data d) h in
    record {
      same_id = ap (λ (o : Run.Outcome). o.0.id) e;
      same_version = ap (λ (o : Run.Outcome). o.0.version) e;
      status_is = ap (λ (o : Run.Outcome). o.0.status) e;
      recorded = ap (λ (o : Run.Outcome). o.0.events) e ∙ ap (λ (i : String). started i now ∷ []) n;
    }

pub start-none :
    (now : ℕ) (d : RunData)
    → can_transition_to (reconstruct_from_data d).status in_progress ≡ true
    → ((start now (reconstruct_from_data d)).1 ≡ none)
      × ((start_run now d).assistant_id ≡ d.assistant_id)
      × ((start_run now d).input ≡ d.input)
unfolding reconstruct_from_data
start-none now d h =
    let e = start_accepted now (reconstruct_from_data d) h in
    (
      ap (λ (o : Run.Outcome). o.1) e,
      ap (λ (o : Run.Outcome). o.0.assistant_id) e,
      ap (λ (o : Run.Outcome). o.0.input) e,
    )

-- The run in memory after the first update, and the database then.
abbrev pub first_run : ℕ → RunData → Run
first_run now d = clear_events (increment_version (start_run now d))

abbrev pub first_db : Services → ℕ → RunData → Db → Db
first_db s now d db = (Persistence.update (s.uuid 0) (s.sid 0) (start_run now d) db).0

-- What holds after the first update.
pub record Begun (s : Services) (now : ℕ) (id : String) (d : RunData) (db : Db) : Type 0 where
  pub tracked : Tracks id (first_run now d) (first_db s now d db)
  pub written : Ends id in_progress (started id now) db (first_db s now d db)
  pub running : (first_run now d).status ≡ in_progress
  pub empty : (first_run now d).events ≡ []
  pub assistant : (first_run now d).assistant_id ≡ d.assistant_id
  pub input : (first_run now d).input ≡ d.input

kept :
    (r : Run)
    → let r' = clear_events (increment_version r) in
      (r'.status ≡ r.status)
      × (r'.events ≡ [])
      × (r'.assistant_id ≡ r.assistant_id)
      × (r'.input ≡ r.input)
unfolding clear_events increment_version
kept r = (refl, refl, refl, refl)

pub start-Tracks :
    (now : ℕ) (id : String) (d : RunData) (db : Db)
    → IsStored id d db
    → can_transition_to (reconstruct_from_data d).status in_progress ≡ true
    → Tracks id (start_run now d) db
start-Tracks now id d db h k =
    let c = start-Changes now id d h.named k in
    changed-Tracks id (reconstruct_from_data d) (start_run now d) db (loaded-Tracks id d db h)
      c.same_id c.same_version

pub begun :
    (s : Services) (now : ℕ) (id : String) (d : RunData) (db : Db)
    → IsStored id d db
    → can_transition_to (reconstruct_from_data d).status in_progress ≡ true
    → Begun s now id d db
begun s now id d db h k =
    let c = start-Changes now id d h.named k in
    let a = start_run now d in
    let u = update-Tracks (s.uuid 0) (s.sid 0) id a db (start-Tracks now id d db h k) in
    let m = kept a in
    let n = start-none now d k in
    record {
      tracked = subst (λ (r : Run). Tracks id r (first_db s now d db)) u.1 u.3;
      written =
          ends id (reconstruct_from_data d) a in_progress (started id now) db (first_db s now d db)
            c u.2;
      running = m.0 ∙ c.status_is;
      empty = m.1;
      assistant = m.2 ∙ n.1;
      input = m.3 ∙ n.2;
    }

pub accepted-none :
    (o : Run.Outcome) (w : World) (k : Run → World × Answer) → o.1 ≡ none → accepted o w k ≡ k o.0
accepted-none (r, none) w k e = refl
accepted-none (r, some x) w k e = cc

started_none :
    (s : Services) (now : ℕ) (id : String) (w : World) (x : Db × Run × Option Failure)
    → x.2 ≡ none
    → run_started s now id w x
      ≡ run_assistant s now id (s.lookups.assistant x.1.assistant_id) x.1 (record w { db = x.0 })
started_none s now id w (db, r, none) e = refl
started_none s now id w (db, r, some f) e = cc

-- The execution after the first update.
pub execute_local-begun :
    (s : Services) (now : ℕ) (id : String) (d : RunData) (w : World)
    → IsStored id d w.db
    → can_transition_to (reconstruct_from_data d).status in_progress ≡ true
    → execute_local s now id (reconstruct_from_data d) w
      ≡ run_assistant s now id
          (s.lookups.assistant d.assistant_id)
          (first_run now d)
          (record w { db = first_db s now d w.db })
unfolding execute_local
execute_local-begun s now id d w h k =
    let b = begun s now id d w.db h k in
    let u =
      update-Tracks (s.uuid 0) (s.sid 0) id (start_run now d) w.db
        (start-Tracks now id d w.db h k) in
    let x = Persistence.update (s.uuid 0) (s.sid 0) (start_run now d) w.db in
    accepted-none (start now (reconstruct_from_data d)) w
      (λ r'. run_started s now id w (Persistence.update (s.uuid 0) (s.sid 0) r' w.db))
      (start-none now d k).0
    ∙ (started_none s now id w x u.0
        ∙ (ap
              (λ (r : Run).
                run_assistant s now id (s.lookups.assistant r.assistant_id) r
                  (record w { db = first_db s now d w.db }))
              u.1
            ∙ ap
                (λ (i : String).
                  run_assistant s now id (s.lookups.assistant i) (first_run now d)
                    (record w { db = first_db s now d w.db }))
                b.assistant))

pub stored_none :
    (w : World) (x : Db × Run × Option Failure)
    → x.2 ≡ none
    → stored w x ≡ (record w { db = x.0 }, finished)
stored_none w (db, r, none) e = refl
stored_none w (db, r, some f) e = cc

-- The last step: the changed run is stored.
pub store-Ends :
    (s : Services) (id : String) (r a : Run) (status : Status) (e : Event) (w : World)
    → Tracks id r w.db
    → Changes r a status e
    → let (w', answer) = store s 1 a w in (answer ≡ finished) × Ends id status e w.db w'.db
store-Ends s id r a status e w t c =
    let u =
      update-Tracks (s.uuid 1) (s.sid 1) id a w.db
        (changed-Tracks id r a w.db t c.same_id c.same_version) in
    rw (stored_none w (Persistence.update (s.uuid 1) (s.sid 1) a w.db) u.0)
      (refl, ends id r a status e w.db (Persistence.update (s.uuid 1) (s.sid 1) a w.db).0 c u.2)
