-- ===== src/Run/Diagram.antt =====
-- The transition diagram of a run, written out, against the methods and `CanTransitionTo`.
use duragraph.Base.{◌≡◌, refl, ◌↔◌, true, none, some, Option}
use duragraph.Run.{Run, Outcome}
use duragraph.Run.Statuses.{
  Status, queued, in_progress, requires_action, completed, failed, cancelled, can_transition_to,
}
use duragraph.Run.Commands.{Command, begin, finish, abort, stop, pause, continue}
use duragraph.Run.Lifecycle.{is_stored}

infix 40 ◌⟶◌
pub data ◌⟶◌ : Status → Status → Type 0 where
  go : queued ⟶ in_progress
  drop : queued ⟶ cancelled
  ask : in_progress ⟶ requires_action
  answer : requires_action ⟶ in_progress
  succeed : in_progress ⟶ completed
  close : requires_action ⟶ completed
  crash : in_progress ⟶ failed
  give_up : requires_action ⟶ failed
  kill : in_progress ⟶ cancelled
  withdraw : requires_action ⟶ cancelled

ruleset edges = (go, drop, ask, answer, succeed, close, crash, give_up, kill, withdraw)

-- Where a command leads that `CanTransitionTo` guards. The other four, about leases and versions, have
-- no target.
abbrev pub target : Command → Option Status
target (begin t) = some in_progress
target (finish out t) = some completed
target (abort message t) = some failed
target (stop reason t) = some cancelled
target (pause interrupt reason calls t) = some requires_action
target (continue interrupt outputs t) = some in_progress
target _ = none

-- What a command may do to the status of a run, by what it answers.
abbrev pub Follows : Option Status → Status → Outcome → Type 0
Follows none s (r, e) = (e ≡ none) × (r.status ≡ s)
Follows (some t) s (r, none) = (s ⟶ t) × (r.status ≡ t)
Follows (some t) s (r, some e) = r.status ≡ s

⟶-can_transition_to : {s t : Status} → s ⟶ t → can_transition_to s t ≡ true
unfolding can_transition_to
⟶-can_transition_to go = refl
⟶-can_transition_to drop = refl
⟶-can_transition_to ask = refl
⟶-can_transition_to answer = refl
⟶-can_transition_to succeed = refl
⟶-can_transition_to close = refl
⟶-can_transition_to crash = refl
⟶-can_transition_to give_up = refl
⟶-can_transition_to kill = refl
⟶-can_transition_to withdraw = refl

can_transition_to-⟶ :
    (s t : Status) → is_stored s ≡ true → is_stored t ≡ true → can_transition_to s t ≡ true → s ⟶ t
unfolding can_transition_to
can_transition_to-⟶ queued queued hs ht h = cc
can_transition_to-⟶ in_progress queued hs ht h = cc
can_transition_to-⟶ requires_action queued hs ht h = cc
can_transition_to-⟶ completed queued hs ht h = cc
can_transition_to-⟶ _ _ hs ht h = first_of (search edges, cc)

-- Between the six stored statuses `CanTransitionTo` answers true exactly on the edges of the
-- diagram.
pub can_transition_to_iff :
    (s t : Status)
    → is_stored s ≡ true
    → is_stored t ≡ true
    → (can_transition_to s t ≡ true) ↔ (s ⟶ t)
can_transition_to_iff s t hs ht = (can_transition_to-⟶ s t hs ht, λ e. ⟶-can_transition_to e)
