-- ===== src/Service/Execute/Panics.antt =====
-- An execution that panics.
use duragraph.Base.{ℕ, ◌≡◌, ◌≢◌, refl, ap, ◌∙◌, true, List, [], ◌∷◌, ◌++◌, String, some}
use duragraph.Base.Dict.{lookup}
use duragraph.Base.Value.{Value, text, Obj}
use duragraph.Base.Errors.{ok}
use duragraph.Engine.Execute
use duragraph.Execution.{get}
use duragraph.Execution.Compare.{as_true}
use duragraph.Execution.Executors.{done}
use duragraph.Persistence.{logged_events}
use duragraph.Persistence.Loaded.{IsStored}
use duragraph.Run.{Run}
use duragraph.Run.Events.{started}
use duragraph.Run.Load.{RunData, reconstruct_from_data}
use duragraph.Run.Statuses.{in_progress, can_transition_to, to_string}
use duragraph.Service.Dispatch.{Assistant}
use duragraph.Service.Execute.{
  World, Services, panicked, obj_of, interrupt_at, settle, run_assistant, run_graphs, execute_run,
}
use duragraph.Service.Execute.Steps.{begun, first_run, first_db, execute_local-begun}
use duragraph.Service.Execute.Local.{WorksAlone, execute_run-local}
use duragraph.Workflow.{Graph}

not_text :
    (s : Services) (now : ℕ) (id : String) (v : Value) (out : Obj) (r : Run) (w : World)
    → ((node : String) → v ≢ text node)
    → interrupt_at s now id v out r w ≡ (w, panicked)
not_text s now id (text node) out r w h = absurd (h node refl)
not_text s now id _ out r w h = refl

settle_panics :
    (s : Services) (now : ℕ) (id : String) (out : Obj) (r : Run) (w : World)
    → as_true (get out "requires_action") ≡ true
    → ((node : String) → get out "node_id" ≢ text node)
    → settle s now id (done out) r w ≡ (w, panicked)
settle_panics s now id out r w e h = rw e (not_text s now id (get out "node_id") out r w h)

-- A run that may start is executed here, as no worker takes it; its assistant is found and has a
-- graph, and the engine's output asks for an action but names no node by a text. Then the
-- execution panics, with the run in progress and only its start added to the log.
pub unnamed_action_panics :
    (s : Services) (now : ℕ) (id : String) (d : RunData) (a : Assistant) (g : Graph)
    (gs : List Graph) (out : Obj) (w : World)
    → IsStored id d w.db
    → can_transition_to (reconstruct_from_data d).status in_progress ≡ true
    → WorksAlone s now id w
    → s.lookups.assistant d.assistant_id ≡ ok a
    → s.lookups.graphs a.id ≡ ok (g ∷ gs)
    → Execute.execute s.depth s.env id g (obj_of d.input) ≡ done out
    → as_true (get out "requires_action") ≡ true
    → ((node : String) → get out "node_id" ≢ text node)
    → let (w', answer) = execute_run s now id w in
      (answer ≡ panicked)
      × ((d' : RunData) × (lookup id w'.db.runs ≡ some d') × (d'.status ≡ to_string in_progress))
      × (logged_events id w'.db.events ≡ logged_events id w.db.events ++ started id now ∷ [])
unnamed_action_panics s now id d a g gs out w h k alone m n ran asks unnamed =
    let (t, p) = execute_run-local s now id d w h alone in
    let r = first_run now d in
    let v : World = record w { tasks = t; db = first_db s now d w.db } in
    let b = begun s now id d w.db h k in
    let path =
      p
      ∙ (execute_local-begun s now id d (record w { tasks = t }) h k
          ∙ (ap (λ x. run_assistant s now id x r v) m
              ∙ (ap (λ x. run_graphs s now id x r v) n
                  ∙ (ap (λ i. settle s now id (Execute.execute s.depth s.env id g (obj_of i)) r v)
                        b.input
                      ∙ (ap (λ o. settle s now id o r v) ran
                          ∙ settle_panics s now id out r v asks unnamed))))) in
    rw path (refl, (b.written.row, b.written.found, b.written.status_is), b.written.logged)
