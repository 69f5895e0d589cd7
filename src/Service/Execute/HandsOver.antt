-- ===== src/Service/Execute/HandsOver.antt =====
-- An execution that a worker takes.
use duragraph.Base.{
  ℕ, ◌≡◌, refl, ap, ◌∙◌, Bool, true, false, List, [], ◌∷◌, ◌++◌, String, some, if◌then◌else◌,
}
use duragraph.Base.Text.{◌=ₛ◌}
use duragraph.Base.Dict.{lookup}
use duragraph.Base.Errors.{Result, ok}
use duragraph.Persistence
use duragraph.Persistence.{logged_events}
use duragraph.Persistence.Loaded.{IsStored, find_by_id-IsStored, changed-Tracks, update-Tracks}
use duragraph.Run.{Run, start, assign_to_worker}
use duragraph.Run.Events.{Event, started}
use duragraph.Run.Load.{RunData, reconstruct_from_data}
use duragraph.Run.Statuses.{in_progress, can_transition_to, to_string}
use duragraph.Service.Dispatch.{Assistant, graph_id_of, task_of, dispatch_run}
use duragraph.Service.Execute.{
  World, Services, finished, hand_over, store, dispatched, service_world, execute_local,
  execute_loaded, execute_run,
}
use duragraph.Service.Execute.Steps.{
  start_run, start-Changes, start-none, start-Tracks, stored_none, accepted-none,
}
use duragraph.Service.Execute.Stranded.{dispatch_creates}
use duragraph.Task
use duragraph.Task.{Table, create, pending}

assigned :
    (now : ℕ) (worker : String) (d : ℕ) (r : Run)
    → let a = assign_to_worker now worker d r in
      (a.id ≡ r.id)
      × (a.version ≡ r.version)
      × (a.status ≡ r.status)
      × (a.events ≡ r.events)
      × (a.worker_id ≡ worker)
unfolding assign_to_worker
assigned now worker d r = (refl, refl, refl, refl, refl)

hand_over_lem :
    (s : Services) (now : ℕ) (id worker : String) (d : RunData) (w : World)
    → IsStored id d w.db
    → can_transition_to (reconstruct_from_data d).status in_progress ≡ true
    → let (w', answer) = hand_over s now worker (reconstruct_from_data d) w in
      (answer ≡ finished)
      × ((d' : RunData) × (lookup id w'.db.runs ≡ some d')
          × (d'.status ≡ to_string in_progress)
          × (d'.worker_id ≡ worker))
      × (logged_events id w'.db.events ≡ logged_events id w.db.events ++ started id now ∷ [])
      × (w'.tasks ≡ w.tasks)
hand_over_lem s now id worker d w h k =
    let r = start_run now d in
    let a = assign_to_worker now worker 120 r in
    let c = start-Changes now id d h.named k in
    let m = assigned now worker 120 r in
    let t = changed-Tracks id r a w.db (start-Tracks now id d w.db h k) m.0 m.1 in
    let u = update-Tracks (s.uuid 0) (s.sid 0) id a w.db t in
    let x = u.2 in
    rw
      (accepted-none (start now (reconstruct_from_data d)) w
          (λ r'. store s 0 (assign_to_worker now worker 120 r') w) (start-none now d k).0
        ∙ stored_none w (Persistence.update (s.uuid 0) (s.sid 0) a w.db) u.0)
      (
        refl,
        (x.row, x.found, x.status ∙ ap to_string (m.2 ∙ c.status_is), x.worker_id ∙ m.4),
        x.logged ∙ ap (λ (es : List Event). logged_events id w.db.events ++ es) (m.3 ∙ c.recorded),
        refl,
      )

-- A run that may start is executed while a worker with a name serves the graph of its assistant. The
-- execution returns; the run is in progress and assigned to the worker, with its start in the log,
-- and one task is added, which waits for the worker, with the graph, the run's input and
-- three retries.
pub run_handed_over :
    (s : Services) (now : ℕ) (id worker : String) (d : RunData) (a : Assistant) (w : World)
    → IsStored id d w.db
    → can_transition_to (reconstruct_from_data d).status in_progress ≡ true
    → s.workers ≡ true
    → s.lookups.assistant d.assistant_id ≡ ok a
    → s.lookups.worker (graph_id_of a) ≡ ok (some worker)
    → (worker =ₛ "") ≡ false
    → let (w', answer) = execute_run s now id w in
      (answer ≡ finished)
      × ((d' : RunData) × (lookup id w'.db.runs ≡ some d')
          × (d'.status ≡ to_string in_progress)
          × (d'.worker_id ≡ worker))
      × (logged_events id w'.db.events ≡ logged_events id w.db.events ++ started id now ∷ [])
      × ((t : Task.Task) × (w'.tasks.rows ≡ w.tasks.rows ++ t ∷ [])
          × (t.status ≡ pending)
          × (t.run_id ≡ id)
          × (t.graph_id ≡ graph_id_of a)
          × (t.input ≡ d.input)
          × (t.max_retries ≡ 3))
unfolding execute_run create reconstruct_from_data
run_handed_over s now id worker d a w h k on m f named =
    let r = reconstruct_from_data d in
    let created = (create now (task_of r id (graph_id_of a)) w.tasks).0 in
    let path =
      ap (λ (y : Result Run). execute_loaded s now id y w) (find_by_id-IsStored id d w.db h)
      ∙ (ap
            (λ (b : Bool).
              if b
              then dispatched s now id r w (dispatch_run now s.lookups id (service_world w))
              else execute_local s now id r w)
            on
          ∙ (ap (dispatched s now id r w) (dispatch_creates now s.lookups id worker d a w h m f)
              ∙ ap
                  (λ (b : Bool).
                    let w' = record w { tasks = created } in
                    if b then execute_local s now id r w' else hand_over s now worker r w')
                  named)) in
    let over = hand_over_lem s now id worker d (record w { tasks = created }) h k in
    rw path
      (over.0, over.1, over.2, (_, ap (λ (t : Table). t.rows) over.3, refl, refl, refl, refl, refl))
