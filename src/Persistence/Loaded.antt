-- ===== src/Persistence/Loaded.antt =====
-- A run that was loaded from its row, and what `Update` makes of it when no other client came
-- between.
use duragraph.Base.{ℕ, ◌≡◌, ◌≢◌, refl, sym, ap, ◌∙◌, List, ◌++◌, String, arith, none, some}
use mathlib.Core.Path.{subst}
use duragraph.Base.Dict.{lookup, insert, lookup-insert_self}
use duragraph.Base.Errors.{ok}
use duragraph.Run.{Run, increment_version, clear_events}
use duragraph.Run.Statuses.{to_string}
use duragraph.Run.Events.{Event}
use duragraph.Run.Load.{RunData, reconstruct_from_data}
use duragraph.Persistence.{Db, find_by_id, save_events, logged_events, updated_row, update}
use duragraph.Persistence.Writes.{logged_events-save_events, runs-save_events, update_accepted}

-- The database after a run that was loaded from the row `d` is stored.
abbrev pub stored_db : (ℕ → String) → String → Run → RunData → Db → Db
stored_db uuid sid r d db =
    save_events uuid sid r.id r.events
      (record db { runs = insert r.id (updated_row (increment_version r) d) db.runs })

lookup-stored_db :
    (uuid : ℕ → String) (sid : String) (r : Run) (d : RunData) (db : Db)
    → lookup r.id (stored_db uuid sid r d db).runs ≡ some (updated_row (increment_version r) d)
lookup-stored_db uuid sid r d db =
    ap (lookup r.id) (runs-save_events uuid sid r.id r.events _)
    ∙ lookup-insert_self r.id (updated_row (increment_version r) d) db.runs

-- The row of a run, as the services find it.
pub record IsStored (id : String) (d : RunData) (db : Db) : Type 0 where
  pub found : lookup id db.runs ≡ some d
  pub named : d.id ≡ id
  pub positive : d.version ≢ 0

pub find_by_id-IsStored :
    (id : String) (d : RunData) (db : Db)
    → IsStored id d db
    → find_by_id id db ≡ ok (reconstruct_from_data d)
unfolding find_by_id
find_by_id-IsStored id d db h = rw (find_by_id, h.found) refl

pub loaded_version : (d : RunData) → d.version ≢ 0 → (reconstruct_from_data d).version ≡ d.version
unfolding reconstruct_from_data
loaded_version d h = ground arith

-- A run that was loaded, and changed by one method, is stored.
pub update_loaded :
    (uuid : ℕ → String) (sid : String) (r : Run) (id : String) (d : RunData) (db : Db)
    → lookup id db.runs ≡ some d
    → r.id ≡ id
    → r.version ≡ d.version
    → update uuid sid r db ≡ (stored_db uuid sid r d db, clear_events (increment_version r), none)
update_loaded uuid sid r id d db e i v =
    update_accepted uuid sid r db d (subst (λ j. lookup j db.runs ≡ some d) (sym i) e) v

-- An update keeps the row's other columns, such as the input.
pub stored_input :
    (uuid : ℕ → String) (sid : String) (r : Run) (id : String) (d : RunData) (db : Db)
    → r.id ≡ id
    → (d' : RunData) × (lookup id (stored_db uuid sid r d db).runs ≡ some d')
      × (d'.status ≡ to_string r.status)
      × (d'.input ≡ d.input)
unfolding updated_row increment_version
stored_input uuid sid r id d db i = (
  updated_row (increment_version r) d,
  subst
      (λ j. lookup j (stored_db uuid sid r d db).runs ≡ some (updated_row (increment_version r) d))
      i (lookup-stored_db uuid sid r d db),
  refl,
  refl,
)

columns :
    (r : Run) (d : RunData)
    → let d' = updated_row (increment_version r) d in
      (d'.status ≡ to_string r.status)
      × (d'.output ≡ r.output)
      × (d'.error_message ≡ r.error_message)
      × (d'.completed_at ≡ r.completed_at)
      × (d'.worker_id ≡ r.worker_id)
      × (d'.version ≡ (increment_version r).version)
unfolding updated_row increment_version
columns r d = (refl, refl, refl, refl, refl, refl)

-- What the database has of a run that was stored with the events `es`.
pub record Written (id : String) (r : Run) (es : List Event) (db db' : Db) : Type 0 where
  pub row : RunData
  pub found : lookup id db'.runs ≡ some row
  pub status : row.status ≡ to_string r.status
  pub output : row.output ≡ r.output
  pub error_message : row.error_message ≡ r.error_message
  pub completed_at : row.completed_at ≡ r.completed_at
  pub worker_id : row.worker_id ≡ r.worker_id
  pub version : row.version ≡ (increment_version r).version
  pub logged : logged_events id db'.events ≡ logged_events id db.events ++ es

pub written :
    (uuid : ℕ → String) (sid : String) (r : Run) (id : String) (d : RunData) (db db' : Db)
    → r.id ≡ id
    → db' ≡ stored_db uuid sid r d db
    → Written id r r.events db db'
written uuid sid r id d db db' i e = record {
  row = updated_row (increment_version r) d;
  found = rw e (
      subst
        (λ j.
          lookup j (stored_db uuid sid r d db).runs ≡ some (updated_row (increment_version r) d))
        i (lookup-stored_db uuid sid r d db));
  status = (columns r d).0;
  output = (columns r d).1;
  error_message = (columns r d).2;
  completed_at = (columns r d).3;
  worker_id = (columns r d).4;
  version = (columns r d).5;
  logged = rw e (
      subst
        (λ j.
          logged_events j (stored_db uuid sid r d db).events
          ≡ logged_events j db.events ++ r.events)
        i (logged_events-save_events uuid sid r.id r.events _));
}

-- A copy of a run that an update will accept: nobody changed the row since.
pub record Tracks (id : String) (r : Run) (db : Db) : Type 0 where
  pub row : RunData
  pub found : lookup id db.runs ≡ some row
  pub named : r.id ≡ id
  pub same : r.version ≡ row.version

pub loaded-Tracks :
    (id : String) (d : RunData) (db : Db)
    → IsStored id d db
    → Tracks id (reconstruct_from_data d) db
unfolding reconstruct_from_data
loaded-Tracks id d db h = record {
  row = d;
  found = h.found;
  named = h.named;
  same = loaded_version d h.positive;
}

-- A change of anything but the id and the version keeps a copy acceptable.
pub changed-Tracks :
    (id : String) (r a : Run) (db : Db)
    → Tracks id r db
    → a.id ≡ r.id
    → a.version ≡ r.version
    → Tracks id a db
changed-Tracks id r a db h i v = record {
  row = h.row;
  found = h.found;
  named = i ∙ h.named;
  same = v ∙ h.same;
}

id-stored : (r : Run) → (clear_events (increment_version r)).id ≡ r.id
unfolding clear_events increment_version
id-stored r = refl

version-stored :
    (r : Run) → (clear_events (increment_version r)).version ≡ (increment_version r).version
unfolding clear_events
version-stored r = refl

-- The update of such a copy is accepted, and the copy in memory can be updated again.
pub update-Tracks :
    (uuid : ℕ → String) (sid : String) (id : String) (r : Run) (db : Db)
    → Tracks id r db
    → let (db', r', e) = update uuid sid r db in
      (e ≡ none)
      × (r' ≡ clear_events (increment_version r))
      × Written id r r.events db db'
      × Tracks id r' db'
update-Tracks uuid sid id r db h =
    let x = written uuid sid r id h.row db (stored_db uuid sid r h.row db) h.named refl in
    rw (update_loaded uuid sid r id h.row db h.found h.named h.same) (
      refl,
      refl,
      x,
      record {
        row = x.row;
        found = x.found;
        named = id-stored r ∙ h.named;
        same = version-stored r ∙ sym x.version;
      },
    )
