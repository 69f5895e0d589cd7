-- ===== src/Persistence/Versions.antt =====
-- The numbers of the events in a stream (event_store.go, `saveEventsWithTx`, with the trigger).
use duragraph.Base.{
  ℕ, zero, suc, ◌+◌, ◌≡◌, refl, sym, ap, ◌∙◌, Option, none, some, List, [], ◌∷◌, ◌++◌, String,
  arith, if◌then◌else◌,
}
use duragraph.Base.Text.{◌=ₛ◌, =ₛ_iff}
use duragraph.Base.Dict.{lookup, insert, lookup-insert, lookup-insert_self}
use duragraph.Run.Events.{Event}
use duragraph.Persistence.{Db, Stream, EventRow, existing, insert_event, insert_events, save_events}

-- The versions of the events of an aggregate, in the order in which they were written.
abbrev pub versions : String → List EventRow → List ℕ
versions id [] = []
versions id (r ∷ rs) =
    let rest = versions id rs in if r.aggregate_id =ₛ id then r.event_version ∷ rest else rest

abbrev pub stream_version : Option Stream → ℕ
stream_version none = 0
stream_version (some s) = s.version

-- 1, 2, ..., n
abbrev pub count_to : ℕ → List ℕ
count_to zero = []
count_to (suc n) = count_to n ++ suc n ∷ []

abbrev pub IsNumbered : String → Db → Type 0
IsNumbered id db = versions id db.events ≡ count_to (stream_version (lookup id db.streams))

versions-snoc :
    (id : String) (rs : List EventRow) (r : EventRow)
    → versions id (rs ++ r ∷ [])
      ≡ (if r.aggregate_id =ₛ id then versions id rs ++ r.event_version ∷ [] else versions id rs)
versions-snoc id [] r = ground (arith, =ₛ_iff r.aggregate_id id)
versions-snoc id (x ∷ rs) r = ground (arith, versions-snoc id rs r)

count_to-add : (n : ℕ) → count_to (n + 1) ≡ count_to n ++ (n + 1) ∷ []
count_to-add n = let e : n + 1 ≡ suc n = omega arith in rw e refl

abbrev bumped : Stream → Stream
bumped t = record t { version = t.version + 1 }

-- The stream of the aggregate is there, and one event is written with the next number.
insert_event-IsNumbered :
    (event_id id k : String) (s t : Stream) (e : Event) (db : Db) (v : ℕ)
    → IsNumbered k db
    → lookup id db.streams ≡ some t
    → v ≡ t.version + 1
    → IsNumbered k (insert_event event_id s id v e db)
      × (lookup id (insert_event event_id s id v e db).streams ≡ some (bumped t))
unfolding insert_event
insert_event-IsNumbered event_id id k s t e db v h f n = rw f (
  ground (
    arith,
    versions-snoc k db.events (record {
      event_id = event_id;
      stream_id = s.stream_id;
      aggregate_id = id;
      event_version = v;
      payload = e;
    }),
    lookup-insert id k (bumped t) db.streams,
    count_to-add t.version,
    =ₛ_iff id k,
  ),
  lookup-insert_self id (bumped t) db.streams,
)

insert_events-IsNumbered :
    (uuid : ℕ → String) (id k : String) (s t : Stream) (i : ℕ) (es : List Event) (db : Db)
    → IsNumbered k db
    → lookup id db.streams ≡ some t
    → t.version ≡ s.version + i
    → IsNumbered k (insert_events uuid s id i es db)
unfolding insert_events
insert_events-IsNumbered uuid id k s t i [] db h f n = h
insert_events-IsNumbered uuid id k s t i (e ∷ es) db h f n =
    let (next, found) =
      insert_event-IsNumbered (uuid i) id k s t e db (s.version + i + 1) h f (omega (arith, n)) in
    insert_events-IsNumbered uuid id k s (bumped t) (suc i) es
      (insert_event (uuid i) s id (s.version + i + 1) e db) next found (omega (arith, n))

version-existing : (sid : String) (o : Option Stream) → stream_version o ≡ (existing sid o).version
version-existing sid none = refl
version-existing sid (some s) = refl

existing_version :
    (sid id k : String) (db : Db)
    → stream_version (lookup k (insert id (existing sid (lookup id db.streams)) db.streams))
      ≡ stream_version (lookup k db.streams)
existing_version sid id k db =
    let s = existing sid (lookup id db.streams) in
    let same : stream_version (lookup id db.streams) ≡ s.version =
      version-existing sid (lookup id db.streams) in
    ground (arith, lookup-insert id k s db.streams, =ₛ_iff id k, same)

existing-IsNumbered :
    (sid id k : String) (db : Db)
    → IsNumbered k db
    → IsNumbered k
        (record db { streams = insert id (existing sid (lookup id db.streams)) db.streams })
existing-IsNumbered sid id k db h = h ∙ ap count_to (sym (existing_version sid id k db))

-- The events of every stream are numbered 1, 2, and so on up to the version of the stream, in the
-- order in which they were written, before and after any events are saved: no number is used
-- twice, and none is left out.
pub save_events-IsNumbered :
    (uuid : ℕ → String) (sid id k : String) (es : List Event) (db : Db)
    → IsNumbered k db
    → IsNumbered k (save_events uuid sid id es db)
unfolding save_events
save_events-IsNumbered uuid sid id k [] db h = h
save_events-IsNumbered uuid sid id k (e ∷ es) db h =
    let s = existing sid (lookup id db.streams) in
    insert_events-IsNumbered uuid id k s s 0 (e ∷ es)
      (record db { streams = insert id s db.streams }) (existing-IsNumbered sid id k db h)
      (lookup-insert_self id s db.streams) (omega arith)
