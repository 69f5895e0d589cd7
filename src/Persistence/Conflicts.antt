-- ===== src/Persistence/Conflicts.antt =====
-- Two clients that update one row of runs: internal/infrastructure/persistence/postgres/
-- run_repository.go, `Update`.
use duragraph.Base.{
  ℕ, ◌+◌, ◌^◌, ◌<◌, ◌≡◌, refl, sym, ap, ◌∙◌, Option, none, some, String, arith, inc_int,
}
use mathlib.Core.Path.{subst}
use duragraph.Base.Dict.{lookup, lookup-insert_self}
use duragraph.Run.{Run, increment_version}
use duragraph.Run.Load.{RunData}
use duragraph.Persistence.{Db, Failure, conflict, updated_row, update}
use duragraph.Persistence.Writes.{runs-save_events, update_accepted, update_refused}

-- The row after an accepted update has the next version.
row_after :
    (uuid : ℕ → String) (sid : String) (a : Run) (db : Db) (d : RunData)
    → lookup a.id db.runs ≡ some d
    → a.version ≡ d.version
    → lookup a.id (update uuid sid a db).0.runs ≡ some (updated_row (increment_version a) d)
row_after uuid sid a db d e v =
    let a' = increment_version a in
    ap (λ (o : Db × Run × Option Failure). lookup a.id o.0.runs)
      (update_accepted uuid sid a db d e v)
    ∙ (ap (lookup a.id) (runs-save_events uuid sid a.id a.events _)
        ∙ lookup-insert_self a.id (updated_row a' d) db.runs)

version-updated_row :
    (a : Run) (d : RunData)
    → a.version + 1 < 2 ^ 64
    → (updated_row (increment_version a) d).version ≡ a.version + 1
unfolding updated_row increment_version inc_int
version-updated_row a d h = omega arith

-- Two clients have copies of one version of a row. The first update is accepted; then the second
-- one is refused with the conflict error, and changes nothing.
pub update_second_refused :
    (uuid uuid' : ℕ → String) (sid sid' : String) (a b : Run) (db : Db) (d : RunData)
    → lookup a.id db.runs ≡ some d
    → a.version ≡ d.version
    → b.id ≡ a.id
    → b.version ≡ a.version
    → a.version + 1 < 2 ^ 64
    → let (db', a', e) = update uuid sid a db in
      (e ≡ none) × (update uuid' sid' b db' ≡ (db', increment_version b, some (conflict b.id)))
update_second_refused uuid uuid' sid sid' a b db d e v i w h = (
  ap (λ (o : Db × Run × Option Failure). o.2) (update_accepted uuid sid a db d e v),
  update_refused uuid' sid' b (update uuid sid a db).0 (updated_row (increment_version a) d)
      (subst
        (λ j. lookup j (update uuid sid a db).0.runs ≡ some (updated_row (increment_version a) d))
        (sym i) (row_after uuid sid a db d e v))
      (λ x. absurd (omega (arith, version-updated_row a d h, x, w))),
)

id-increment_version : (b : Run) → (increment_version b).id ≡ b.id
unfolding increment_version
id-increment_version b = refl

version-increment_version :
    (b : Run) → b.version + 1 < 2 ^ 64 → (increment_version b).version ≡ b.version + 1
unfolding increment_version inc_int
version-increment_version b h = omega arith

columns :
    (b : Run) (d : RunData)
    → let r = updated_row (increment_version (increment_version b)) d in
      (r.error_message ≡ b.error_message) × (r.output ≡ b.output) × (r.worker_id ≡ b.worker_id)
unfolding updated_row increment_version
columns b d = (refl, refl, refl)

-- The refusal is no protection from a second try: the run that the refused call left, whose version
-- was increased, is accepted then, and its columns replace those of the first client.
pub update_retry_overwrites :
    (uuid uuid' : ℕ → String) (sid sid' : String) (a b : Run) (db : Db) (d : RunData)
    → lookup a.id db.runs ≡ some d
    → a.version ≡ d.version
    → b.id ≡ a.id
    → b.version ≡ a.version
    → a.version + 1 < 2 ^ 64
    → let (db', a', e) = update uuid sid a db in
      let (db'', b', e') = update uuid' sid' b db' in
      let (last, b'', e'') = update uuid' sid' b' db'' in
      (e' ≡ some (conflict b.id))
      × (e'' ≡ none)
      × ((r : RunData) × (lookup b.id last.runs ≡ some r)
          × (r.error_message ≡ b.error_message)
          × (r.output ≡ b.output)
          × (r.worker_id ≡ b.worker_id))
update_retry_overwrites uuid uuid' sid sid' a b db d e v i w h =
    let db' = (update uuid sid a db).0 in
    let d' = updated_row (increment_version a) d in
    let b' = increment_version b in
    let refused = (update_second_refused uuid uuid' sid sid' a b db d e v i w h).1 in
    let found : lookup b'.id db'.runs ≡ some d' =
      subst (λ j. lookup j db'.runs ≡ some d') (sym (id-increment_version b ∙ i))
        (row_after uuid sid a db d e v) in
    let same : b'.version ≡ d'.version =
      omega (arith, version-updated_row a d h, version-increment_version b, w, h) in
    rw refused (
      refl,
      ap (λ (o : Db × Run × Option Failure). o.2) (update_accepted uuid' sid' b' db' d' found same),
      (
        updated_row (increment_version b') d',
        subst
            (λ j.
              lookup j (update uuid' sid' b' db').0.runs
              ≡ some (updated_row (increment_version b') d'))
            (id-increment_version b) (row_after uuid' sid' b' db' d' found same),
        (columns b d').0,
        (columns b d').1,
        (columns b d').2,
      ),
    )
