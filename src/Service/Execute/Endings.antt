-- ===== src/Service/Execute/Endings.antt =====
-- The methods that end an execution on this server, and what its end has to be.
use duragraph.Base.{
  ℕ, ◌≡◌, refl, ap, ◌∙◌, true, false, List, [], ◌∷◌, ◌++◌, String, none, some, if◌then◌else◌,
}
use duragraph.Base.Text.{◌=ₛ◌}
use duragraph.Base.Value.{text, Obj, GoMap}
use duragraph.Base.Errors.{ok}
use duragraph.Execution.{get}
use duragraph.Execution.Compare.{as_true}
use duragraph.Execution.Executors
use duragraph.Execution.Executors.{done, fails, out_of_fuel}
use duragraph.Interrupt
use duragraph.Interrupt.{Store, Interrupt, tool_call, has_row, new_interrupt, save}
use duragraph.Persistence.Loaded.{Tracks}
use duragraph.Run.{Run, complete, fail, require_action}
use duragraph.Run.Events.{Event, run_completed, run_failed, run_requires_action}
use duragraph.Run.Statuses.{
  Status, in_progress, completed, failed, requires_action, can_transition_to,
}
use duragraph.Service.Execute.{World, Services, Answer, finished, not_executed, no_fuel}
use duragraph.Service.Execute.Steps.{Changes}

-- The methods that end an execution are accepted while the run is in progress.
allowed :
    (r : Run)
    → r.status ≡ in_progress
    → (can_transition_to r.status completed ≡ true)
      × (can_transition_to r.status failed ≡ true)
      × (can_transition_to r.status requires_action ≡ true)
unfolding can_transition_to
allowed r s = rw s (refl, refl, refl)

recorded :
    (r : Run) (id : String) (e : String → Event)
    → r.events ≡ []
    → r.id ≡ id
    → r.events ++ e r.id ∷ [] ≡ e id ∷ []
recorded r id e empty named =
    ap (λ (es : List Event). es ++ e r.id ∷ []) empty ∙ ap (λ (i : String). e i ∷ []) named

pub completes :
    (now : ℕ) (out : GoMap) (id : String) (r : Run)
    → r.status ≡ in_progress
    → r.events ≡ []
    → r.id ≡ id
    → ((complete now out r).1 ≡ none)
      × Changes r (complete now out r).0 completed (run_completed id out now)
unfolding complete
completes now out id r s e i = rw (allowed r s).0 (
  refl,
  record {
    same_id = refl;
    same_version = refl;
    status_is = refl;
    recorded = recorded r id (λ j. run_completed j out now) e i;
  },
)

pub fails_run :
    (now : ℕ) (message id : String) (r : Run)
    → r.status ≡ in_progress
    → r.events ≡ []
    → r.id ≡ id
    → Changes r (fail now message r).0 failed (run_failed id message now)
unfolding fail
fails_run now message id r s e i = rw (allowed r s).1 (record {
  same_id = refl;
  same_version = refl;
  status_is = refl;
  recorded = recorded r id (λ j. run_failed j message now) e i;
})

pub requires :
    (now : ℕ) (interrupt reason id : String) (r : Run)
    → r.status ≡ in_progress
    → r.events ≡ []
    → r.id ≡ id
    → ((require_action now interrupt reason [] r).1 ≡ none)
      × Changes r
          (require_action now interrupt reason [] r).0
          requires_action
          (run_requires_action id interrupt reason [] now)
unfolding require_action
requires now interrupt reason id r s e i = rw (allowed r s).2 (
  refl,
  record {
    same_id = refl;
    same_version = refl;
    status_is = refl;
    recorded = recorded r id (λ j. run_requires_action j interrupt reason [] now) e i;
  },
)

-- How an execution has to end, by what the engine returns.
abbrev pub last_status : Executors.Outcome Obj → Status
last_status (done out) = if as_true (get out "requires_action") then requires_action else completed
last_status _ = failed

abbrev pub last_event : Services → ℕ → String → Executors.Outcome Obj → Event
last_event s now id (done out) =
    if as_true (get out "requires_action")
    then run_requires_action id s.interrupt (s.render (get out "reason")) [] now
    else run_completed id (some out) now
last_event s now id (fails x) = run_failed id (s.describe x) now
last_event s now id out_of_fuel = run_failed id "" now

abbrev pub last_answer : Executors.Outcome Obj → Answer
last_answer (done out) = finished
last_answer (fails x) = not_executed x
last_answer out_of_fuel = no_fuel

-- An output that asks for an action names its node.
abbrev pub NamesNode : Executors.Outcome Obj → Type 0
NamesNode (done out) =
    as_true (get out "requires_action") ≡ true
    → (node : String) × (get out "node_id" ≡ text node) × ((node =ₛ "") ≡ false)
NamesNode _ = Unit

-- What is needed of a world before its last step.
pub record Ready (s : Services) (id : String) (r : Run) (w : World) : Type 0 where
  pub tracked : Tracks id r w.db
  pub running : r.status ≡ in_progress
  pub empty : r.events ≡ []
  pub id_given : (id =ₛ "") ≡ false
  pub free : has_row s.interrupt w.interrupts.rows ≡ false

pub new_interrupt_made :
    (now : ℕ) (fresh id node : String) (out : Obj)
    → (id =ₛ "") ≡ false
    → (node =ₛ "") ≡ false
    → (i : Interrupt) × (new_interrupt now fresh id node tool_call (some out) [] ≡ ok i)
      × (i.id ≡ fresh)
unfolding new_interrupt Interrupt.record_event
new_interrupt_made now fresh id node out h k = rw h (rw k (_, refl, refl))

pub save_free : (i : Interrupt) (is : Store) → has_row i.id is.rows ≡ false → (save i is).1 ≡ true
unfolding save
save_free i is h = rw h refl
