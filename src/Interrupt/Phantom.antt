-- ===== src/Interrupt/Phantom.antt =====
-- Which interrupt `SubmitToolOutputs` resolves.
use duragraph.Base.{
  ℕ, ◌≡◌, refl, ap, ◌∙◌, true, false, List, [], ◌∷◌, ◌++◌, String, Option, none, some, Bool-cases,
  inl, inr,
}
use duragraph.Base.Text.{◌=ₛ◌}
use duragraph.Base.Dict.{lookup}
use duragraph.Base.Value.{GoMap, or_empty}
use duragraph.Base.Errors.{DomainError, ok}
use duragraph.Run
use duragraph.Run.{Run, Outcome}
use duragraph.Run.Statuses.{in_progress, requires_action, same_status, to_string}
use duragraph.Run.Events.{Event, run_resumed}
use duragraph.Run.Load.{RunData, status_of_data, reconstruct_from_data}
use duragraph.Persistence.{logged_events}
use duragraph.Persistence.Loaded.{
  stored_db, update_loaded, written, IsStored, find_by_id-IsStored, Tracks, loaded-Tracks,
  changed-Tracks,
}
use duragraph.Interrupt
use duragraph.Interrupt.{
  Interrupt, Row, Store, has_row, update_rows, unresolved_rows, reconstruct, reconstruct_all,
  find_unresolved_by_run_id, resolve, new_interrupt, reason_of_string,
}
use duragraph.Interrupt.Submission.{
  World, done, store_run, resumed, submit_resolved, stored, submit_loaded, submit_tool_outputs,
}

-- An update by an id that no row has changes no row.
update_rows_missing :
    (i : Interrupt) (rs : List Row) → has_row i.id rs ≡ false → update_rows i rs ≡ rs
unfolding update_rows has_row
update_rows_missing i [] h = refl
update_rows_missing i (r ∷ rs) h = elim (Bool-cases (r.id =ₛ i.id)) [
  | inl e ↦ cc (rw e at h)
  | inr e ↦ rw e (ap (λ rs. r ∷ rs) (update_rows_missing i rs (rw e at h)))
]

remade : ℕ → String → Row → Interrupt
unfolding Interrupt.record_event Interrupt.reason_to_string or_empty reason_of_string
remade now id r =
    let i : Interrupt = record {
      id = id;
      run_id = r.run_id;
      node_id = r.node_id;
      reason = reason_of_string r.reason;
      state = or_empty r.state;
      tool_calls = r.tool_calls;
      resolved = false;
      resolved_at = none;
      created_at = now;
      events = [];
    } in
    Interrupt.record_event i (
      Interrupt.interrupt_created id r.run_id r.node_id
        (Interrupt.reason_to_string (reason_of_string r.reason)) (or_empty r.state) r.tool_calls
        now)

made :
    (now : ℕ) (id : String) (r : Row)
    → (r.run_id =ₛ "") ≡ false
    → (r.node_id =ₛ "") ≡ false
    → new_interrupt now id r.run_id r.node_id (reason_of_string r.reason) r.state r.tool_calls
      ≡ ok (remade now id r)
unfolding new_interrupt remade
made now id r h k = rw h (rw k refl)

rebuilt :
    (now : ℕ) (id : String) (r : Row)
    → (r.run_id =ₛ "") ≡ false
    → (r.node_id =ₛ "") ≡ false
    → reconstruct now id r ≡ some (remade now id r)
unfolding reconstruct
rebuilt now id r h k = rw (reconstruct, made now id r h k) refl

-- What is made of an unresolved row: an interrupt with the fresh id, that can be resolved.
reconstructed :
    (now : ℕ) (id : String) (outputs : List GoMap) (r : Row)
    → (r.run_id =ₛ "") ≡ false
    → (r.node_id =ₛ "") ≡ false
    → (i : Interrupt) × (reconstruct now id r ≡ some i)
      × ((resolve now outputs i).1 ≡ none)
      × ((resolve now outputs i).0.id ≡ id)
      × (i.id ≡ id)
unfolding resolve remade
reconstructed now id outputs r h k = (remade now id r, rebuilt now id r h k, refl, refl, refl)

waiting :
    (d : RunData)
    → d.status ≡ "requires_action"
    → same_status (reconstruct_from_data d).status requires_action ≡ true
unfolding reconstruct_from_data status_of_data same_status to_string
waiting d s = rw s refl

resumed_run :
    (now : ℕ) (i : String) (outputs : List GoMap) (d : RunData)
    → d.status ≡ "requires_action"
    → let (a, e) = Run.resume now i outputs (reconstruct_from_data d) in
      (e ≡ none)
      × (a.id ≡ (reconstruct_from_data d).id)
      × (a.version ≡ (reconstruct_from_data d).version)
      × (a.status ≡ in_progress)
      × (a.events ≡ run_resumed d.id i outputs now ∷ [])
unfolding Run.resume reconstruct_from_data status_of_data Run.Statuses.can_transition_to
resumed_run now i outputs d h = rw h (refl, refl, refl, refl, refl)

-- The run as the submission stores it.
abbrev submitted_run : ℕ → String → List GoMap → RunData → Run
submitted_run now i outputs d = (Run.resume now i outputs (reconstruct_from_data d)).0

store_tracked :
    (uuid : ℕ → String) (sid run : String) (a : Run) (w : World) (h : Tracks run a w.db)
    → store_run uuid sid a w ≡ (record w { db = stored_db uuid sid a h.row w.db }, done)
store_tracked uuid sid run a w h =
    ap (stored w) (update_loaded uuid sid a run h.row w.db h.found h.named h.same)

resumed-none :
    (uuid : ℕ → String) (sid : String) (o : Outcome) (w : World)
    → o.1 ≡ none
    → resumed uuid sid o w ≡ store_run uuid sid o.0 w
resumed-none uuid sid (r, none) w e = refl
resumed-none uuid sid (r, some x) w e = cc

resolved-none :
    (uuid : ℕ → String) (sid : String) (now : ℕ) (outputs : List GoMap) (r : Run) (id : String)
    (o : Interrupt × Option DomainError) (w : World)
    → o.1 ≡ none
    → submit_resolved uuid sid now outputs r id o w
      ≡ resumed uuid sid
          (Run.resume now id outputs r)
          (record w { interrupts = Interrupt.update o.0 w.interrupts })
resolved-none uuid sid now outputs r id (i, none) w e = refl
resolved-none uuid sid now outputs r id (i, some x) w e = cc

-- What the handler computes, up to the last step.
submitted :
    (uuid : ℕ → String) (sid : String) (now : ℕ) (fresh : ℕ → String) (run : String)
    (outputs : List GoMap) (d : RunData) (r : Row) (rs : List Row) (i : Interrupt) (w : World)
    → IsStored run d w.db
    → d.status ≡ "requires_action"
    → unresolved_rows run w.interrupts.rows ≡ r ∷ rs
    → reconstruct now (fresh 0) r ≡ some i
    → (resolve now outputs i).1 ≡ none
    → submit_tool_outputs uuid sid now fresh run outputs w
      ≡ resumed uuid sid
          (Run.resume now i.id outputs (reconstruct_from_data d))
          (record w { interrupts = Interrupt.update (resolve now outputs i).0 w.interrupts })
unfolding submit_tool_outputs find_unresolved_by_run_id reconstruct_all
submitted uuid sid now fresh run outputs d r rs i w h s u m e =
    ap (λ o. submit_loaded uuid sid now fresh run outputs o w) (find_by_id-IsStored run d w.db h)
    ∙ rw (waiting d s) (
        rw u (
          rw m (
            resolved-none uuid sid now outputs (reconstruct_from_data d) i.id
              (resolve now outputs i) w e)))

-- A run waits for tool outputs, and the oldest of its unresolved interrupts is complete. The
-- submission is accepted, the run goes on and its log has the event. But the interrupt that is
-- resolved was made with a new id, which no row has: every row of the interrupts is as it was, so
-- that the same interrupts stay unresolved, and the event names an interrupt that does not exist.
pub submission_resolves_nothing :
    (uuid : ℕ → String) (sid : String) (now : ℕ) (fresh : ℕ → String) (run : String)
    (outputs : List GoMap) (d : RunData) (r : Row) (rs : List Row) (w : World)
    → IsStored run d w.db
    → d.status ≡ "requires_action"
    → unresolved_rows run w.interrupts.rows ≡ r ∷ rs
    → (r.run_id =ₛ "") ≡ false
    → (r.node_id =ₛ "") ≡ false
    → has_row (fresh 0) w.interrupts.rows ≡ false
    → let (w', a) = submit_tool_outputs uuid sid now fresh run outputs w in
      (a ≡ done)
      × (w'.interrupts.rows ≡ w.interrupts.rows)
      × ((d' : RunData) × (lookup run w'.db.runs ≡ some d') × (d'.status ≡ "in_progress"))
      × (logged_events run w'.db.events
          ≡ logged_events run w.db.events ++ run_resumed run (fresh 0) outputs now ∷ [])
unfolding Interrupt.update to_string
submission_resolves_nothing uuid sid now fresh run outputs d r rs w h s u k n f =
    let (i, m, e, resolved_id, id) = reconstructed now (fresh 0) outputs r k n in
    let o = Run.resume now i.id outputs (reconstruct_from_data d) in
    let g = resumed_run now i.id outputs d s in
    let v : World = record w {
      interrupts = Interrupt.update (resolve now outputs i).0 w.interrupts;
    } in
    let t =
      changed-Tracks run (reconstruct_from_data d) o.0 v.db (loaded-Tracks run d w.db h) g.1 g.2 in
    let x = written uuid sid o.0 run t.row v.db (stored_db uuid sid o.0 t.row v.db) t.named refl in
    rw
      (submitted uuid sid now fresh run outputs d r rs i w h s u m e
        ∙ (resumed-none uuid sid o v g.0 ∙ store_tracked uuid sid run o.0 v t))
      (
        refl,
        update_rows_missing (resolve now outputs i).0 w.interrupts.rows
            (ap (λ j. has_row j w.interrupts.rows) resolved_id ∙ f),
        (x.row, x.found, x.status ∙ ap to_string g.3),
        x.logged
            ∙ ap (λ (es : List Event). logged_events run w.db.events ++ es)
                (g.4
                  ∙ (ap (λ (j : String). run_resumed j i.id outputs now ∷ []) h.named
                      ∙ ap (λ (j : String). run_resumed run j outputs now ∷ []) id)),
      )
