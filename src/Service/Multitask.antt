-- ===== src/Service/Multitask.antt =====
-- internal/application/service/run_service.go: what becomes of the active runs of a thread when a
-- new run is created, with the listing of active runs of internal/infrastructure/persistence/
-- postgres/run_repository.go.
pub mod Active
pub mod Clears
use duragraph.Base.{
  ℕ, Bool, true, false, ◌&&◌, ◌||◌, Option, none, some, List, [], ◌∷◌, String, if◌then◌else◌, leb,
}
use duragraph.Base.Text.{◌=ₛ◌}
use duragraph.Base.Dict.{Dict}
use duragraph.Base.Errors.{DomainError, Result, ok, err, invalid_state}
use duragraph.Run.{Run, cancel}
use duragraph.Run.Statuses.{is_terminal, to_string}
use duragraph.Run.Load.{RunData}
use duragraph.Persistence.{find_by_id}
use duragraph.Service.{World, ServiceError, not_loaded, refused, accepted, store}

-- `status IN ('queued', 'in_progress', 'requires_action')`
unfoldable pub is_active_status : String → Bool
is_active_status s = s =ₛ "queued" || (s =ₛ "in_progress" || s =ₛ "requires_action")

unfoldable pub is_active_in : String → RunData → Bool
unfolding is_active_status
is_active_in thread d = d.thread_id =ₛ thread && is_active_status d.status

-- `ORDER BY created_at DESC`
unfoldable pub insert_newest : RunData → List RunData → List RunData
insert_newest d [] = d ∷ []
insert_newest d (e ∷ es) =
    let rest = insert_newest d es in if leb e.created_at d.created_at then d ∷ e ∷ es else e ∷ rest

unfoldable pub find_active_by_thread_id : String → Dict RunData → List RunData
find_active_by_thread_id thread [] = []
find_active_by_thread_id thread ((k, d) ∷ ds) =
    let rest = find_active_by_thread_id thread ds in
    if is_active_in thread d then insert_newest d rest else rest

pub data Action : Type 0 where
  proceed reject interrupt rollback : Action

unfoldable pub refuse_run : Action → String → Action × String × Option DomainError
refuse_run action id = (action, id, some (invalid_state "run_in_progress" "create_run"))

-- `CheckMultitaskStrategy` on the active runs.
unfoldable pub check_multitask_strategy :
    String → List RunData → Action × String × Option DomainError
unfolding refuse_run
check_multitask_strategy strategy [] = (proceed, "", none)
check_multitask_strategy strategy (d ∷ ds) =
    if strategy =ₛ "interrupt"
    then (interrupt, d.id, none)
    else if strategy =ₛ "rollback"
    then (rollback, d.id, none)
    else if strategy =ₛ "enqueue"
    then (proceed, "", none)
    else refuse_run reject d.id

abbrev pub cancel_loaded :
    (ℕ → String) → String → ℕ → World → Result Run → World × Option ServiceError
cancel_loaded uuid sid now w (err e) = (w, some (not_loaded e))
cancel_loaded uuid sid now w (ok r) =
    if is_terminal r.status
    then (w, some (refused (invalid_state (to_string r.status) "cancel")))
    else accepted (cancel now "cancelled by user" r) w (λ r'. store uuid sid r' w)

unfoldable pub cancel_run : (ℕ → String) → String → ℕ → String → World → World × Option ServiceError
cancel_run uuid sid now id w = cancel_loaded uuid sid now w (find_by_id id w.db)

-- An error of the cancellation is only logged.
unfoldable pub cancel_existing : (ℕ → String) → String → ℕ → String → World → World
cancel_existing uuid sid now id w =
    let w' = (cancel_run uuid sid now id w).0 in if id =ₛ "" then w else w'

unfoldable pub act :
    (ℕ → String)
    → String
    → ℕ
    → World
    → Action × String × Option DomainError
    → Bool × Option DomainError × World
act uuid sid now w (proceed, id, e) = (true, none, w)
act uuid sid now w (reject, id, e) = (false, e, w)
act uuid sid now w (interrupt, id, e) = (true, none, cancel_existing uuid sid now id w)
act uuid sid now w (rollback, id, e) = (true, none, cancel_existing uuid sid now id w)

unfoldable pub apply_multitask_strategy :
    (ℕ → String) → String → ℕ → String → String → World → Bool × Option DomainError × World
apply_multitask_strategy uuid sid now thread strategy w =
    act uuid sid now w
      (check_multitask_strategy strategy (find_active_by_thread_id thread w.db.runs))
