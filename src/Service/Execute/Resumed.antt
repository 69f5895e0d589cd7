-- ===== src/Service/Execute/Resumed.antt =====
-- What becomes of a run that was resumed.
use duragraph.Base.{ℕ, ◌≡◌, refl, ap, ◌∙◌, false, List, [], ◌∷◌, String, Option, none, some}
use duragraph.Base.Text.{◌=ₛ◌}
use duragraph.Base.Dict.{lookup}
use duragraph.Base.Value.{GoMap}
use duragraph.Base.Errors.{ok, invalid_state}
use duragraph.Interrupt
use duragraph.Interrupt.{Interrupt, Row, has_row, unresolved_rows}
use duragraph.Interrupt.Submission
use duragraph.Interrupt.Submission.{submit_tool_outputs}
use duragraph.Interrupt.Phantom.{submission_resolves_nothing}
use duragraph.Persistence.{Db, find_by_id}
use duragraph.Persistence.Loaded.{IsStored}
use duragraph.Run
use duragraph.Run.{Run}
use duragraph.Run.Load.{RunData, reconstruct_from_data, status_of_data}
use duragraph.Run.Statuses.{in_progress, requires_action, same_status, to_string}
use duragraph.Service.Execute.{
  World, Services, Answer, finished, refused, resume_run, resume_loaded,
}

-- A run whose row is in progress.
abbrev Running : String → Db → Type 0
Running id db = (d : RunData) × (lookup id db.runs ≡ some d) × (d.status ≡ "in_progress")

loaded_in_progress :
    (id : String) (db : Db)
    → Running id db
    → (r : Run) × (find_by_id id db ≡ ok r) × (r.status ≡ in_progress)
unfolding find_by_id reconstruct_from_data status_of_data
loaded_in_progress id db (d, found, s) =
    (reconstruct_from_data d, rw (find_by_id, found) refl, rw s refl)

not_waiting : (r : Run) → r.status ≡ in_progress → same_status r.status requires_action ≡ false
unfolding same_status to_string
not_waiting r h = rw h refl

resume_refused :
    (s : Services) (now : ℕ) (id : String) (w : World)
    → Running id w.db
    → resume_run s now id w ≡ (w, refused (invalid_state "in_progress" "resume"))
unfolding resume_run to_string
resume_refused s now id w h =
    let (r, found, i) = loaded_in_progress id w.db h in
    ap (λ x. resume_loaded s now id x w) found
    ∙ rw (not_waiting r i) (ap (λ st. (w, refused (invalid_state (to_string st) "resume"))) i)

-- Tool outputs are submitted for a run that waits, as in the theorem on the submission, and then, as
-- the HTTP handler does, the run is to be resumed. The submission is accepted, but the resumption
-- is refused and changes nothing, because the run does not wait any more: it is not executed.
pub submitted_run_not_executed :
    (s : Services) (t : ℕ) (uuid : ℕ → String) (sid : String) (now : ℕ) (fresh : ℕ → String)
    (run : String) (outputs : List GoMap) (d : RunData) (r : Row) (rs : List Row) (w : World)
    → IsStored run d w.db
    → d.status ≡ "requires_action"
    → unresolved_rows run w.interrupts.rows ≡ r ∷ rs
    → (r.run_id =ₛ "") ≡ false
    → (r.node_id =ₛ "") ≡ false
    → has_row (fresh 0) w.interrupts.rows ≡ false
    → let (v, a) =
        submit_tool_outputs uuid sid now fresh run outputs
          (record { db = w.db; interrupts = w.interrupts }) in
      let w' : World = record w { db = v.db; interrupts = v.interrupts } in
      (a ≡ Submission.done)
      × (resume_run s t run w' ≡ (w', refused (invalid_state "in_progress" "resume")))
submitted_run_not_executed s t uuid sid now fresh run outputs d r rs w h st u k n f =
    let v : Submission.World = record { db = w.db; interrupts = w.interrupts } in
    let x = submission_resolves_nothing uuid sid now fresh run outputs d r rs v h st u k n f in
    let v' = (submit_tool_outputs uuid sid now fresh run outputs v).0 in
    (
      x.0,
      resume_refused s t run (record w { db = v'.db; interrupts = v'.interrupts })
          (x.2.0, x.2.1, x.2.2),
    )

-- The resumption finds no interrupt, or one that can be resolved.
abbrev pub Usable : List (Option Interrupt) → Type 0
Usable [] = Unit
Usable (none ∷ is) = ⊥
Usable (some i ∷ is) = i.resolved ≡ false

-- What an accepted resumption leaves of the run.
abbrev pub Lost : String → RunData → World × Answer → Type 0
Lost id d (w, answer) =
    (answer ≡ finished)
    × ((d' : RunData) × (lookup id w.db.runs ≡ some d')
        × (d'.status ≡ "in_progress")
        × (d'.input ≡ d.input))
