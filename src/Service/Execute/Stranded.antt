-- ===== src/Service/Execute/Stranded.antt =====
-- Executions that leave the run or its task behind.
use duragraph.Base.{
  ℕ, ◌≡◌, refl, ap, ◌∙◌, Bool, true, false, List, [], ◌∷◌, ◌++◌, String, some, Bool-cases, inl, inr,
  if◌then◌else◌,
}
use duragraph.Base.Text.{◌=ₛ◌}
use duragraph.Base.Dict.{lookup}
use duragraph.Base.Errors.{DomainError, Result, ok, err, invalid_state}
use duragraph.Persistence.{logged_events}
use duragraph.Persistence.Loaded.{IsStored, find_by_id-IsStored}
use duragraph.Run.{Run, start}
use duragraph.Run.Events.{started}
use duragraph.Run.Load.{RunData, reconstruct_from_data}
use duragraph.Run.Statuses.{in_progress, can_transition_to, to_string}
use duragraph.Service.Dispatch.{
  Assistant, Lookups, dispatch_run, dispatch_loaded, dispatch_found, graph_id_of, task_of,
}
use duragraph.Service.Execute.{
  World, Services, Answer, refused, run_assistant, run_graphs, execute_local, dispatched,
  service_world, execute_loaded, execute_run,
}
use duragraph.Service.Execute.Steps.{begun, first_run, first_db, execute_local-begun}
use duragraph.Service.Execute.Local.{WorksAlone, execute_run-local}
use duragraph.Task
use duragraph.Task.{Table, create, pending}
use duragraph.Workflow.{Graph}

-- What the code finds out about the assistant and its graphs once the run is started.
abbrev pub graphs_of : Result Assistant → (String → Result (List Graph)) → Result (List Graph)
graphs_of (err e) find = err e
graphs_of (ok a) find = find a.id

unreachable :
    (s : Services) (now : ℕ) (id : String) (x : Result Assistant) (r : Run) (w : World)
    (e : DomainError)
    → graphs_of x s.lookups.graphs ≡ err e
    → run_assistant s now id x r w ≡ (w, refused e)
unreachable s now id (err f) r w e h = cc
unreachable s now id (ok a) r w e h = ap (λ y. run_graphs s now id y r w) h

-- A run that may start is executed here, and its assistant or the assistant's graphs cannot be read.
-- The error is returned, but the run has been started by then: its row is in progress, and
-- the log ends with the start, so that no event tells of the failure.
pub unreadable_graph_strands :
    (s : Services) (now : ℕ) (id : String) (d : RunData) (w : World) (e : DomainError)
    → IsStored id d w.db
    → can_transition_to (reconstruct_from_data d).status in_progress ≡ true
    → WorksAlone s now id w
    → graphs_of (s.lookups.assistant d.assistant_id) s.lookups.graphs ≡ err e
    → let (w', answer) = execute_run s now id w in
      (answer ≡ refused e)
      × ((d' : RunData) × (lookup id w'.db.runs ≡ some d') × (d'.status ≡ to_string in_progress))
      × (logged_events id w'.db.events ≡ logged_events id w.db.events ++ started id now ∷ [])
unreadable_graph_strands s now id d w e h k alone unread =
    let (t, p) = execute_run-local s now id d w h alone in
    let v : World = record w { tasks = t; db = first_db s now d w.db } in
    let b = begun s now id d w.db h k in
    rw
      (p
        ∙ (execute_local-begun s now id d (record w { tasks = t }) h k
            ∙ unreachable s now id (s.lookups.assistant d.assistant_id) (first_run now d) v e
                unread))
      (refl, (b.written.row, b.written.found, b.written.status_is), b.written.logged)

start_refused :
    (now : ℕ) (r : Run)
    → can_transition_to r.status in_progress ≡ false
    → start now r ≡ (r, some (invalid_state (to_string r.status) "start"))
unfolding start
start_refused now r h = rw h refl

dispatched-refused :
    (s : Services) (now : ℕ) (id : String) (r : Run) (w : World) (x : Table × Result String)
    → can_transition_to r.status in_progress ≡ false
    → dispatched s now id r w x
      ≡ (record w { tasks = x.0 }, refused (invalid_state (to_string r.status) "start"))
unfolding execute_local
dispatched-refused s now id r w (t, err e) h = rw (start_refused now r h) refl
dispatched-refused s now id r w (t, ok worker) h = elim (Bool-cases (worker =ₛ "")) [
  | inl e ↦ rw e (rw (start_refused now r h) refl)
  | inr e ↦ rw e (rw (start_refused now r h) refl)
]

-- Whether there are workers or not, a run that cannot be started is not executed.
pub execute_loaded-refused :
    (s : Services) (now : ℕ) (id : String) (r : Run) (w : World)
    → can_transition_to r.status in_progress ≡ false
    → let (w', answer) = execute_loaded s now id (ok r) w in
      (answer ≡ refused (invalid_state (to_string r.status) "start")) × (w'.db ≡ w.db)
unfolding execute_local
execute_loaded-refused s now id r w h = elim (Bool-cases s.workers) [
  | inl e ↦
      rw
        (ap choose e
          ∙ dispatched-refused s now id r w (dispatch_run now s.lookups id (service_world w)) h)
        (refl, refl)
  | inr e ↦ rw (ap choose e) (rw (start_refused now r h) (refl, refl))
]
  where
    choose : Bool → World × Answer
    choose b =
        if b
        then dispatched s now id r w (dispatch_run now s.lookups id (service_world w))
        else execute_local s now id r w

-- The task that a dispatch creates.
pub dispatch_creates :
    (now : ℕ) (s : Lookups) (id worker : String) (d : RunData) (a : Assistant) (w : World)
    → IsStored id d w.db
    → s.assistant d.assistant_id ≡ ok a
    → s.worker (graph_id_of a) ≡ ok (some worker)
    → dispatch_run now s id (service_world w)
      ≡ ((create now (task_of (reconstruct_from_data d) id (graph_id_of a)) w.tasks).0, ok worker)
unfolding dispatch_run reconstruct_from_data
dispatch_creates now s id worker d a w h m f =
    let r = reconstruct_from_data d in
    ap
      (λ (x : Result Run). (elim x as (λ y. Table × Result String) [
        | err e ↦ (w.tasks, err e)
        | ok r' ↦ dispatch_loaded now s r' id (s.assistant r'.assistant_id) w.tasks
      ]))
      (find_by_id-IsStored id d w.db h)
    ∙ (ap (λ x. dispatch_loaded now s r id x w.tasks) m
        ∙ ap (λ x. dispatch_found now r id (graph_id_of a) x w.tasks) f)

-- A run whose status does not let it start, such as one that was cancelled in the meantime, is
-- executed while a worker serves the graph of its assistant. The start is refused and the database of
-- runs is as it was; but a pending task of the run, for that graph, has been created by then.
pub refused_start_orphans_task :
    (s : Services) (now : ℕ) (id worker : String) (d : RunData) (a : Assistant) (w : World)
    → IsStored id d w.db
    → can_transition_to (reconstruct_from_data d).status in_progress ≡ false
    → s.workers ≡ true
    → s.lookups.assistant d.assistant_id ≡ ok a
    → s.lookups.worker (graph_id_of a) ≡ ok (some worker)
    → let (w', answer) = execute_run s now id w in
      (answer ≡ refused (invalid_state (to_string (reconstruct_from_data d).status) "start"))
      × (w'.db ≡ w.db)
      × ((t : Task.Task) × (w'.tasks.rows ≡ w.tasks.rows ++ t ∷ [])
          × (t.status ≡ pending)
          × (t.run_id ≡ id)
          × (t.graph_id ≡ graph_id_of a))
unfolding execute_run create
refused_start_orphans_task s now id worker d a w h k on m f =
    let r = reconstruct_from_data d in
    let x = dispatch_run now s.lookups id (service_world w) in
    let created = dispatch_creates now s.lookups id worker d a w h m f in
    let path =
      ap (λ (y : Result Run). execute_loaded s now id y w) (find_by_id-IsStored id d w.db h)
      ∙ (ap (λ (b : Bool). if b then dispatched s now id r w x else execute_local s now id r w) on
          ∙ dispatched-refused s now id r w x k) in
    rw path
      (refl, refl, (_, ap (λ (y : Table × Result String). y.0.rows) created, refl, refl, refl))
