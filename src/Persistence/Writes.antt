-- ===== src/Persistence/Writes.antt =====
-- What `saveEventsWithTx` writes.
use duragraph.Base.{
  ℕ, suc, ◌+◌, ◌≡◌, ◌≢◌, refl, sym, ap, ◌∙◌, none, some, List, [], ◌∷◌, ◌++◌, String, arith,
}
use mathlib.Core.List.{append-nil, append_assoc}
use duragraph.Base.Text.{=ₛ_iff}
use duragraph.Base.Dict.{lookup, insert}
use duragraph.Run.{Run, increment_version, clear_events}
use duragraph.Run.Events.{Event}
use duragraph.Run.Load.{RunData}
use duragraph.Persistence.{
  Db, EventRow, Stream, conflict, insert_event, insert_events, save_events, logged_events, existing,
  updated_row, matching, update,
}

-- The events of another run are not touched, and a transaction adds the new ones at the end.
logged_events-snoc :
    (id : String) (rs : List EventRow) (r : EventRow)
    → r.aggregate_id ≡ id
    → logged_events id (rs ++ r ∷ []) ≡ logged_events id rs ++ r.payload ∷ []
unfolding logged_events
logged_events-snoc id [] r h = ground (arith, =ₛ_iff r.aggregate_id id)
logged_events-snoc id (x ∷ rs) r h = ground (arith, logged_events-snoc id rs r h)

logged_events-insert_events :
    (uuid : ℕ → String) (s : Stream) (id : String) (i : ℕ) (es : List Event) (db : Db)
    → logged_events id (insert_events uuid s id i es db).events ≡ logged_events id db.events ++ es
unfolding insert_events insert_event
logged_events-insert_events uuid s id i [] db = sym (append-nil (logged_events id db.events))
logged_events-insert_events uuid s id i (e ∷ es) db =
    let db' = insert_event (uuid i) s id (s.version + i + 1) e db in
    logged_events-insert_events uuid s id (suc i) es db'
    ∙ (ap (λ l. l ++ es) (logged_events-snoc id db.events _ refl)
        ∙ append_assoc (logged_events id db.events) (e ∷ []) es)

pub logged_events-save_events :
    (uuid : ℕ → String) (sid id : String) (es : List Event) (db : Db)
    → logged_events id (save_events uuid sid id es db).events ≡ logged_events id db.events ++ es
unfolding save_events
logged_events-save_events uuid sid id [] db = sym (append-nil (logged_events id db.events))
logged_events-save_events uuid sid id (e ∷ es) db =
    logged_events-insert_events uuid (existing sid (lookup id db.streams)) id 0 (e ∷ es) _

runs-insert_events :
    (uuid : ℕ → String) (s : Stream) (id : String) (i : ℕ) (es : List Event) (db : Db)
    → (insert_events uuid s id i es db).runs ≡ db.runs
unfolding insert_events insert_event
runs-insert_events uuid s id i [] db = refl
runs-insert_events uuid s id i (e ∷ es) db =
    runs-insert_events uuid s id (suc i) es (insert_event (uuid i) s id (s.version + i + 1) e db)

pub runs-save_events :
    (uuid : ℕ → String) (sid id : String) (es : List Event) (db : Db)
    → (save_events uuid sid id es db).runs ≡ db.runs
unfolding save_events
runs-save_events uuid sid id [] db = refl
runs-save_events uuid sid id (e ∷ es) db =
    runs-insert_events uuid (existing sid (lookup id db.streams)) id 0 (e ∷ es) _

matched : (v : ℕ) (d : RunData) → v ≡ d.version → matching v (some d) ≡ some d
unfolding matching
matched v d e = ground arith

unmatched : (v : ℕ) (d : RunData) → v ≢ d.version → matching v (some d) ≡ none
unfolding matching
unmatched v d e = ground arith

-- An update of a row with the version of the copy is accepted, and one of any other is refused.
pub update_accepted :
    (uuid : ℕ → String) (sid : String) (a : Run) (db : Db) (d : RunData)
    → lookup a.id db.runs ≡ some d
    → a.version ≡ d.version
    → let a' = increment_version a in
      update uuid sid a db ≡ (
        save_events uuid sid a.id a.events
            (record db { runs = insert a.id (updated_row a' d) db.runs }),
        clear_events a',
        none,
      )
unfolding update
update_accepted uuid sid a db d e v =
    let m : matching a.version (some d) ≡ some d = matched a.version d v in
    rw (update, e) (rw m refl)

pub update_refused :
    (uuid : ℕ → String) (sid : String) (a : Run) (db : Db) (d : RunData)
    → lookup a.id db.runs ≡ some d
    → a.version ≢ d.version
    → update uuid sid a db ≡ (db, increment_version a, some (conflict a.id))
unfolding update
update_refused uuid sid a db d e v =
    let m : matching a.version (some d) ≡ none = unmatched a.version d v in
    rw (update, e) (rw m refl)
