-- ===== src/Persistence/Tests.antt =====
-- A database with one run, and two clients of it.
use duragraph.Base.{ℕ, ◌≡◌, refl, none, some, List, [], ◌∷◌, String, arith}
use duragraph.Base.Dict.{lookup, insert}
use duragraph.Base.Errors.{Result, ok, err}
use duragraph.Run.{Run, zero_run, new_run, increment_version}
use duragraph.Run.Commands.{begin, finish}
use duragraph.Run.Replay.{reconstruct}
use duragraph.Run.Load.{RunData}
use duragraph.Run.RoundTrip.{row}
use duragraph.Persistence.{Db, conflict, save, update, logged_events}
use duragraph.Persistence.Sessions.{Step, load, change, commit, steps}
use duragraph.Persistence.EventSourcing.{Agrees, events_replay}
use duragraph.Persistence.Conflicts.{update_second_refused, update_retry_overwrites}

abbrev ids_of : String → ℕ → String
ids_of prefix i = prefix

abbrev the_run : Result Run → Run
the_run (ok r) = r
the_run (err _) = zero_run

abbrev made : Run
made = the_run (new_run 5 "r1" "thread" "assistant" none [])

made_ok : new_run 5 "r1" "thread" "assistant" none [] ≡ ok made
unfolding new_run
made_ok = refl

abbrev no_rows : Db
no_rows = record { runs = []; streams = []; events = []; outbox = [] }

-- Two clients load the run; the first one starts and finishes it, the second one is too late.
abbrev session : List Step
session =
    load "a"
    ∷ load "b"
    ∷ change "a" (begin 6) refl
    ∷ change "b" (begin 7) refl
    ∷ commit "a" (ids_of "a1") "s2"
    ∷ commit "b" (ids_of "b1") "s3"
    ∷ change "a" (finish none 8) refl
    ∷ commit "a" (ids_of "a2") "s4"
    ∷ []

events_replay_example :
    let s =
      steps "r1" session (record { db = (save (ids_of "e") "s1" made no_rows).0; copies = [] }) in
    (b : Run) × (d : RunData) × (reconstruct (logged_events "r1" s.db.events) ≡ ok b)
    × (lookup "r1" s.db.runs ≡ some d)
    × Agrees b d
unfolding lookup logged_events
events_replay_example =
    events_replay 5 "r1" "thread" "assistant" none [] (ids_of "e") "s1" no_rows session made_ok refl
      refl (omega arith)

abbrev stored_row : RunData
stored_row = row made

abbrev one_run : Db
one_run = record { runs = insert "r1" stored_row []; streams = []; events = []; outbox = [] }

abbrev other_client : Run
other_client = record made { output = none; error_message = "late" }

update_second_refused_example :
    let (db', a', e) = update (ids_of "a") "s1" made one_run in
    (e ≡ none)
    × (update (ids_of "b") "s2" other_client db'
        ≡ (db', increment_version other_client, some (conflict "r1")))
unfolding new_run lookup insert
update_second_refused_example =
    update_second_refused (ids_of "a") (ids_of "b") "s1" "s2" made other_client one_run stored_row
      refl refl refl refl (omega arith)

update_retry_overwrites_example :
    let (db', a', e) = update (ids_of "a") "s1" made one_run in
    let (db'', b', e') = update (ids_of "b") "s2" other_client db' in
    let (last, b'', e'') = update (ids_of "b") "s2" b' db'' in
    (e' ≡ some (conflict "r1"))
    × (e'' ≡ none)
    × ((r : RunData) × (lookup "r1" last.runs ≡ some r)
        × (r.error_message ≡ "late")
        × (r.output ≡ none)
        × (r.worker_id ≡ ""))
unfolding new_run lookup insert
update_retry_overwrites_example =
    update_retry_overwrites (ids_of "a") (ids_of "b") "s1" "s2" made other_client one_run stored_row
      refl refl refl refl (omega arith)
