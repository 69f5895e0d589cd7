-- ===== src/Service/Execute/Settles.antt =====
-- How an execution on this server ends.
use duragraph.Base.{
  ℕ, ◌≡◌, ◌≢◌, refl, ap, ◌∙◌, Bool, true, false, List, [], ◌∷◌, ◌++◌, String, some, Bool-cases, inl,
  inr,
}
use mathlib.Core.Path.{subst}
use mathlib.Core.List.{append_assoc}
use duragraph.Base.Text.{◌=ₛ◌}
use duragraph.Base.Dict.{lookup}
use duragraph.Base.Value.{Value, text, Obj}
use duragraph.Base.Errors.{Result, ok}
use duragraph.Engine.Depth.{NestedBelow, execute_returns}
use duragraph.Engine.Execute
use duragraph.Execution.{get}
use duragraph.Execution.Compare.{as_true}
use duragraph.Execution.Executors
use duragraph.Execution.Executors.{done, fails, out_of_fuel}
use duragraph.Interrupt.{Store, Interrupt, has_row, save}
use duragraph.Persistence.{logged_events}
use duragraph.Persistence.Loaded.{IsStored}
use duragraph.Run.{Run, complete, fail, require_action}
use duragraph.Run.Events.{Event, started, run_completed, run_failed, run_requires_action}
use duragraph.Run.Load.{RunData, reconstruct_from_data}
use duragraph.Run.Statuses.{
  in_progress, completed, failed, requires_action, can_transition_to, to_string,
}
use duragraph.Service.Dispatch.{Assistant}
use duragraph.Service.Execute.{
  World, Services, Answer, finished, obj_of, store, settle, interrupt_at, interrupt_with,
  saved_interrupt, execute_run, accepted, run_assistant, run_graphs,
}
use duragraph.Service.Execute.Steps.{
  Ends, begun, first_run, first_db, accepted-none, execute_local-begun, store-Ends,
}
use duragraph.Service.Execute.Local.{WorksAlone, execute_run-local}
use duragraph.Service.Execute.Endings.{
  Ready, NamesNode, last_status, last_event, last_answer, completes, fails_run, requires,
  new_interrupt_made, save_free,
}
use duragraph.Workflow.{Graph}

saved_true :
    (w : World) (x : Store × Bool) (k : World → World × Answer)
    → x.1 ≡ true
    → saved_interrupt w x k ≡ k (record w { interrupts = x.0 })
saved_true w (is, true) k e = refl
saved_true w (is, false) k e = cc

interrupt-Ends :
    (s : Services) (now : ℕ) (id node : String) (out : Obj) (r : Run) (w : World)
    → Ready s id r w
    → get out "node_id" ≡ text node
    → (node =ₛ "") ≡ false
    → let (w', answer) = interrupt_at s now id (get out "node_id") out r w in
      (answer ≡ finished)
      × Ends id requires_action
          (run_requires_action id s.interrupt (s.render (get out "reason")) [] now)
          w.db
          w'.db
interrupt-Ends s now id node out r w h n k =
    let reason = s.render (get out "reason") in
    let (i, made, fresh) = new_interrupt_made now s.interrupt id node out h.id_given k in
    let free = save_free i w.interrupts (ap (λ j. has_row j w.interrupts.rows) fresh ∙ h.free) in
    let w' : World = record w { interrupts = (save i w.interrupts).0 } in
    let (taken, c) = requires now i.id reason id r h.running h.empty h.tracked.named in
    let end =
      store-Ends s id r (require_action now i.id reason [] r).0 requires_action
        (run_requires_action id i.id reason [] now) w' h.tracked c in
    let path =
      ap (λ (v : Value). interrupt_at s now id v out r w) n
      ∙ (ap (λ (x : Result Interrupt). interrupt_with s now reason x r w) made
          ∙ (saved_true w (save i w.interrupts)
                (λ v. accepted (require_action now i.id reason [] r) v (λ r'. store s 1 r' v)) free
              ∙ accepted-none (require_action now i.id reason [] r) w' (λ r'. store s 1 r' w')
                  taken)) in
    rw path (
      end.0,
      subst
          (λ (j : String).
            Ends id requires_action (run_requires_action id j reason [] now) w.db
              (store s 1 (require_action now i.id reason [] r).0 w').0.db)
          fresh end.1,
    )

-- The last step of an execution.
settle-Ends :
    (s : Services) (now : ℕ) (id : String) (o : Executors.Outcome Obj) (r : Run) (w : World)
    → Ready s id r w
    → o ≢ out_of_fuel
    → NamesNode o
    → let (w', answer) = settle s now id o r w in
      (answer ≡ last_answer o) × Ends id (last_status o) (last_event s now id o) w.db w'.db
settle-Ends s now id out_of_fuel r w h f n = absurd (f refl)
settle-Ends s now id (fails x) r w h f n = (
  refl,
  (store-Ends s id r (fail now (s.describe x) r).0 failed (run_failed id (s.describe x) now) w
      h.tracked (fails_run now (s.describe x) id r h.running h.empty h.tracked.named)).1,
)
settle-Ends s now id (done out) r w h f n =
    elim (Bool-cases (as_true (get out "requires_action"))) [
      | inl e ↦ let (node, k, given) = n e in rw e (interrupt-Ends s now id node out r w h k given)
      | inr e ↦
          let (taken, c) = completes now (some out) id r h.running h.empty h.tracked.named in
          rw e (
            rw (accepted-none (complete now (some out) r) w (λ r'. store s 1 r' w) taken) (
              store-Ends s id r (complete now (some out) r).0 completed
                (run_completed id (some out) now) w h.tracked c))
    ]

-- A run that may start is executed here, as no worker takes it; its assistant is found and has a
-- graph, whose subgraphs are nested less deep than the bound, the new interrupt's id is free, and an
-- output that asks for an action names its node. The execution returns what the engine's
-- result asks for: the run is completed with an output, waits for the action, or has failed, and
-- two events of it are appended to the log, the start and the end.
pub execute_run_settles :
    (s : Services) (now : ℕ) (id : String) (d : RunData) (a : Assistant) (g : Graph)
    (gs : List Graph) (w : World)
    → IsStored id d w.db
    → can_transition_to (reconstruct_from_data d).status in_progress ≡ true
    → WorksAlone s now id w
    → s.lookups.assistant d.assistant_id ≡ ok a
    → s.lookups.graphs a.id ≡ ok (g ∷ gs)
    → NestedBelow s.depth s.env g
    → (id =ₛ "") ≡ false
    → has_row s.interrupt w.interrupts.rows ≡ false
    → NamesNode (Execute.execute s.depth s.env id g (obj_of d.input))
    → let o = Execute.execute s.depth s.env id g (obj_of d.input) in
      let (w', answer) = execute_run s now id w in
      (answer ≡ last_answer o)
      × ((d' : RunData) × (lookup id w'.db.runs ≡ some d')
          × (d'.status ≡ to_string (last_status o)))
      × (logged_events id w'.db.events
          ≡ logged_events id w.db.events ++ started id now ∷ last_event s now id o ∷ [])
execute_run_settles s now id d a g gs w h k alone m n depth given free names =
    let o = Execute.execute s.depth s.env id g (obj_of d.input) in
    let (t, p) = execute_run-local s now id d w h alone in
    let r = first_run now d in
    let v : World = record w { tasks = t; db = first_db s now d w.db } in
    let b = begun s now id d w.db h k in
    let ready : Ready s id r v = record {
      tracked = b.tracked;
      running = b.running;
      empty = b.empty;
      id_given = given;
      free = free;
    } in
    let path =
      p
      ∙ (execute_local-begun s now id d (record w { tasks = t }) h k
          ∙ (ap (λ x. run_assistant s now id x r v) m
              ∙ (ap (λ x. run_graphs s now id x r v) n
                  ∙ ap (λ i. settle s now id (Execute.execute s.depth s.env id g (obj_of i)) r v)
                      b.input))) in
    let (answer, end) =
      settle-Ends s now id o r v ready (execute_returns s.depth s.env id g (obj_of d.input) depth)
        names in
    rw path (
      answer,
      (end.row, end.found, end.status_is),
      end.logged
          ∙ (ap (λ (es : List Event). es ++ last_event s now id o ∷ []) b.written.logged
              ∙ append_assoc (logged_events id w.db.events) (started id now ∷ [])
                  (last_event s now id o ∷ [])),
    )
