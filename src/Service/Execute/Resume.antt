-- ===== src/Service/Execute/Resume.antt =====
-- internal/application/service/run_service.go, `ResumeRunWithInput`, up to the call of `ExecuteRun`
-- that it leaves running; and what the HTTP handler of internal/infrastructure/http/handlers/run.go
-- does after the tool outputs are submitted.
use duragraph.Base.{ℕ, Option, none, some, List, [], ◌∷◌, String, if◌then◌else◌}
use duragraph.Base.Dict.{insert_all}
use duragraph.Base.Value.{object, Fields, end, field, Obj, GoMap}
use duragraph.Base.Errors.{DomainError, Result, ok, err, invalid_state}
use duragraph.Interrupt
use duragraph.Interrupt.{Interrupt, find_unresolved_by_run_id, resolve}
use duragraph.Persistence.{find_by_id}
use duragraph.Run
use duragraph.Run.{Run}
use duragraph.Run.Statuses.{requires_action, same_status, to_string}
use duragraph.Service.Execute.{World, Services, Answer, refused, panicked, accepted, store}

abbrev pub fields_of : Obj → Fields
fields_of [] = end
fields_of ((k, v) ∷ m) = field k v (fields_of m)

-- `{"resume_input": resumeInput}`
abbrev pub outputs_of : Obj → List GoMap
outputs_of resume = some (("resume_input", object (fields_of resume)) ∷ []) ∷ []

-- The map of the run's input is changed in place; a new map, for a nil input, is dropped.
abbrev pub change_input : Obj → GoMap → Run → Run
change_input resume none r = r
change_input resume (some m) r = record r { input = some (insert_all resume m) }

abbrev pub with_input : Obj → Run → Run
with_input resume r = change_input resume r.input r

abbrev pub resume_stored : Services → Obj → Run.Outcome → World → World × Answer
resume_stored s resume o w = accepted o w (λ r. store s 0 (with_input resume r) w)

abbrev pub resume_resolved :
    Services → ℕ → Obj → Run → String → Interrupt × Option DomainError → World → World × Answer
resume_resolved s now resume r id (i, some e) w = (w, refused e)
resume_resolved s now resume r id (i, none) w =
    resume_stored s resume (Run.resume now id (outputs_of resume) r)
      (record w { interrupts = Interrupt.update i w.interrupts })

abbrev pub resume_first :
    Services → ℕ → Obj → Run → List (Option Interrupt) → World → World × Answer
resume_first s now resume r [] w = resume_stored s resume (Run.resume now "" [] r) w
resume_first s now resume r (none ∷ is) w = (w, panicked)
resume_first s now resume r (some i ∷ is) w =
    resume_resolved s now resume r i.id (resolve now (outputs_of resume) i) w

abbrev pub resume_found :
    Services → ℕ → (ℕ → String) → String → Obj → Result Run → World → World × Answer
resume_found s now fresh id resume (err e) w = (w, refused e)
resume_found s now fresh id resume (ok r) w =
    if same_status r.status requires_action
    then resume_first s now resume r (find_unresolved_by_run_id now fresh id w.interrupts) w
    else (w, refused (invalid_state (to_string r.status) "resume_with_input"))

-- `fresh n` is the id that the n-th unresolved interrupt gets.
unfoldable pub resume_run_with_input :
    Services → ℕ → (ℕ → String) → String → Obj → World → World × Answer
unfolding find_by_id find_unresolved_by_run_id resolve
resume_run_with_input s now fresh id resume w =
    resume_found s now fresh id resume (find_by_id id w.db) w
