-- ===== src/Interrupt/Refusals.antt =====
-- What a refused submission leaves.
use duragraph.Base.{
  ℕ, ◌≡◌, ◌≢◌, refl, true, List, [], ◌∷◌, String, Option, none, some, Bool-cases, inl, inr, arith,
}
use duragraph.Base.Value.{GoMap}
use duragraph.Base.Errors.{DomainError, Result, ok, err, not_found}
use duragraph.Run
use duragraph.Run.{Run, Outcome}
use duragraph.Run.Statuses.{
  Status, requires_action, in_progress, other, is_valid, same_status, to_string, can_transition_to,
}
use duragraph.Run.Load.{RunData, status_of_data, reconstruct_from_data}
use duragraph.Base.Dict.{lookup}
use duragraph.Persistence.{Db, Failure, find_by_id, update}
use duragraph.Interrupt.{Interrupt, resolve, find_unresolved_by_run_id}
use duragraph.Interrupt.Submission.{
  World, refused, stored, resumed, submit_resolved, submit_first, submit_loaded,
  submit_tool_outputs,
}

stored_not_refused :
    (w : World) (x : Db × Run × Option Failure) (e : DomainError) → (stored w x).1 ≢ refused e
stored_not_refused w (db, r, none) e h = cc
stored_not_refused w (db, r, some f) e h = cc

accepted_not_refused :
    (uuid : ℕ → String) (sid : String) (o : Outcome) (w : World) (e : DomainError)
    → o.1 ≡ none
    → (resumed uuid sid o w).1 ≢ refused e
accepted_not_refused uuid sid (r, none) w e a h = stored_not_refused w (update uuid sid r w.db) e h
accepted_not_refused uuid sid (r, some x) w e a h = cc

valid_waiting :
    (s : Status)
    → is_valid s ≡ true
    → same_status s requires_action ≡ true
    → can_transition_to s in_progress ≡ true
unfolding same_status to_string can_transition_to is_valid
valid_waiting requires_action v h = refl
valid_waiting (other x) v h = cc
valid_waiting _ v h = cc

loaded_valid : (s : String) → is_valid (status_of_data s) ≡ true
unfolding status_of_data is_valid
loaded_valid s = ground arith

-- A run that was loaded has a status that is a constant, and can be resumed when it waits.
waiting_resumes :
    (now : ℕ) (id : String) (outputs : List GoMap) (r : Run)
    → is_valid r.status ≡ true
    → same_status r.status requires_action ≡ true
    → (Run.resume now id outputs r).1 ≡ none
unfolding Run.resume
waiting_resumes now id outputs r v h = rw (valid_waiting r.status v h) refl

found_valid : (id : String) (db : Db) (r : Run) → find_by_id id db ≡ ok r → is_valid r.status ≡ true
unfolding find_by_id reconstruct_from_data
found_valid id db r h = found (lookup id db.runs) h
  where
    found :
        (o : Option RunData)
        → (elim o as (λ x. Result Run) [
          | none ↦ err (not_found "run" id)
          | some d ↦ ok (reconstruct_from_data d)
        ])
          ≡ ok r
        → is_valid r.status ≡ true
    found none e = cc
    found (some d) e = cc (e, loaded_valid d.status)

resolved_unchanged :
    (uuid : ℕ → String) (sid : String) (now : ℕ) (outputs : List GoMap) (r : Run) (id : String)
    (o : Interrupt × Option DomainError) (w : World) (e : DomainError)
    → is_valid r.status ≡ true
    → same_status r.status requires_action ≡ true
    → (submit_resolved uuid sid now outputs r id o w).1 ≡ refused e
    → (submit_resolved uuid sid now outputs r id o w).0 ≡ w
resolved_unchanged uuid sid now outputs r id (i, some x) w e v s h = refl
resolved_unchanged uuid sid now outputs r id (i, none) w e v s h = absurd (
    accepted_not_refused uuid sid (Run.resume now id outputs r) _ e
      (waiting_resumes now id outputs r v s) h)

first_unchanged :
    (uuid : ℕ → String) (sid : String) (now : ℕ) (outputs : List GoMap) (r : Run)
    (is : List (Option Interrupt)) (w : World) (e : DomainError)
    → is_valid r.status ≡ true
    → same_status r.status requires_action ≡ true
    → (submit_first uuid sid now outputs r is w).1 ≡ refused e
    → (submit_first uuid sid now outputs r is w).0 ≡ w
first_unchanged uuid sid now outputs r [] w e v s h = refl
first_unchanged uuid sid now outputs r (none ∷ is) w e v s h = refl
first_unchanged uuid sid now outputs r (some i ∷ is) w e v s h =
    resolved_unchanged uuid sid now outputs r i.id (resolve now outputs i) w e v s h

loaded_unchanged :
    (uuid : ℕ → String) (sid : String) (now : ℕ) (fresh : ℕ → String) (run : String)
    (outputs : List GoMap) (found : Result Run) (w : World) (e : DomainError)
    → ((r : Run) → found ≡ ok r → is_valid r.status ≡ true)
    → (submit_loaded uuid sid now fresh run outputs found w).1 ≡ refused e
    → (submit_loaded uuid sid now fresh run outputs found w).0 ≡ w
loaded_unchanged uuid sid now fresh run outputs (err x) w e v h = refl
loaded_unchanged uuid sid now fresh run outputs (ok r) w e valid h =
    let v = valid r refl in
    elim (Bool-cases (same_status r.status requires_action)) [
      | inl s ↦ rw s (
          first_unchanged uuid sid now outputs r
            (find_unresolved_by_run_id now fresh run w.interrupts) w e v s (rw s at h))
      | inr s ↦ rw s refl
    ]

-- A submission that is refused with a domain error, whatever the cause is, changes nothing: the runs,
-- their log and the interrupts are as they were. In particular no interrupt is updated for a run
-- that then cannot be resumed.
pub refused_submission_unchanged :
    (uuid : ℕ → String) (sid : String) (now : ℕ) (fresh : ℕ → String) (run : String)
    (outputs : List GoMap) (w : World) (e : DomainError)
    → (submit_tool_outputs uuid sid now fresh run outputs w).1 ≡ refused e
    → (submit_tool_outputs uuid sid now fresh run outputs w).0 ≡ w
unfolding submit_tool_outputs
refused_submission_unchanged uuid sid now fresh run outputs w e h =
    loaded_unchanged uuid sid now fresh run outputs (find_by_id run w.db) w e (found_valid run w.db)
      h
