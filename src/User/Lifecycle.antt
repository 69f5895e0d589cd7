-- ===== src/User/Lifecycle.antt =====
-- The life of a user: any sequence of the methods of internal/domain/user/user.go.
use duragraph.Base.{
  ℕ, ◌≡◌, ◌≢◌, ◌⊎◌, Bool, true, false, Option, none, some, List, [], ◌∷◌, String, arith,
}
use duragraph.Base.Text.{=ₛ_iff}
use mathlib.Core.Bool.{false≢true}
use duragraph.Base.Errors.{ok}
use duragraph.User.{
  User, Outcome, Event, signed_up, promoted_to_admin, user_approved, registered_with_password,
  register_user, register_with_password, bootstrap, set_password, mark_auth_method, approve, reject,
  suspend, resume, promote_to_admin, set_persisted_state,
}
use duragraph.User.Statuses.{
  Status, pending, approved, suspended, member, admin, is_valid, is_valid_role,
}

pub data Command : Type 0 where
  admit : String → ℕ → Command
  turn_away : String → String → ℕ → Command
  bar : String → String → ℕ → Command
  readmit : String → ℕ → Command
  promote : String → ℕ → Command
  change_password : String → String → ℕ → Command
  logged_in : String → ℕ → Command
  saved : ℕ → Command

unfoldable pub execute : Command → User → Outcome
execute (admit by now) u = approve now by u
execute (turn_away by reason now) u = reject now by reason u
execute (bar by reason now) u = suspend now by reason u
execute (readmit by now) u = resume now by u
execute (promote by now) u = promote_to_admin now by u
execute (change_password hash by now) u = set_password now hash by u
execute (logged_in method now) u = (mark_auth_method now method u, none)
execute (saved now) u = (set_persisted_state now u, none)

unfoldable pub execute_all : List Command → User → User
execute_all [] u = u
execute_all (c ∷ cs) u = execute_all cs (execute c u).0

-- The person who acts in a command that the acting user may not apply to themselves.
abbrev pub actor : Command → Option String
actor (admit by now) = some by
actor (turn_away by reason now) = some by
actor (bar by reason now) = some by
actor (promote by now) = some by
actor _ = none

-- Nobody approves, rejects, suspends or promotes themselves: such a call returns an error and
-- leaves the user as it was.
pub execute_self_refused :
    (c : Command) (u : User)
    → actor c ≡ some u.id
    → ((execute c u).1 ≢ none) × ((execute c u).0 ≡ u)
unfolding execute approve reject suspend promote_to_admin
execute_self_refused (admit by now) u h = ground (arith, =ₛ_iff by u.id)
execute_self_refused (turn_away by reason now) u h = ground (arith, =ₛ_iff by u.id)
execute_self_refused (bar by reason now) u h = ground (arith, =ₛ_iff by u.id)
execute_self_refused (promote by now) u h = ground (arith, =ₛ_iff by u.id)
execute_self_refused _ u h = ground arith

-- An invariant of users: known role and status, one way to log in at least, and an email.
pub record IsConsistent (u : User) : Type 0 where
  pub known : is_valid u.status ≡ true
  pub known_role : is_valid_role u.role ≡ true
  pub can_log_in : (u.oauth_provider ≢ "") ⊎ (u.password_hash ≢ "")
  pub has_email : u.email ≢ ""

execute-IsConsistent : (c : Command) (u : User) → IsConsistent u → IsConsistent (execute c u).0
unfolding execute approve reject suspend resume promote_to_admin set_password mark_auth_method
    set_persisted_state is_valid is_valid_role
execute-IsConsistent (admit by now) u h = ground arith
execute-IsConsistent (change_password hash by now) u h = ground (arith, =ₛ_iff hash "")
execute-IsConsistent _ u h = ground arith

execute_all-IsConsistent :
    (cs : List Command) (u : User) → IsConsistent u → IsConsistent (execute_all cs u)
unfolding execute_all
execute_all-IsConsistent [] u h = h
execute_all-IsConsistent (c ∷ cs) u h =
    execute_all-IsConsistent cs (execute c u).0 (execute-IsConsistent c u h)

-- How a user comes to be: the two registrations, with the arguments of each.
pub data Registered : Bool → User → Type 0 where
  by_oauth :
      (now : ℕ) (id email provider oauth_id : String) (first : Bool) {u : User}
      → register_user now id email provider oauth_id first ≡ ok u
      → Registered first u
  by_password :
      (now : ℕ) (id email hash : String) (first : Bool) {u : User}
      → register_with_password now id email hash first ≡ ok u
      → Registered first u

Registered-IsConsistent : {first : Bool} {u : User} → Registered first u → IsConsistent u
unfolding register_user register_with_password is_valid is_valid_role
Registered-IsConsistent (by_oauth now id email provider oauth_id first h) =
    ground (arith, =ₛ_iff email "", =ₛ_iff provider "")
Registered-IsConsistent (by_password now id email hash first h) =
    ground (arith, =ₛ_iff email "", =ₛ_iff hash "")

-- A registered user, after any methods, has a known status and role, an email, and an OAuth
-- provider or a password hash to log in with.
pub user_history-IsConsistent :
    {first : Bool} {u : User} (cs : List Command)
    → Registered first u
    → IsConsistent (execute_all cs u)
user_history-IsConsistent {first} {u} cs r =
    execute_all-IsConsistent cs u (Registered-IsConsistent r)

-- The first user is an approved admin, by three events in a fixed order, the last two without
-- another actor; any other user is pending, with one event.
pub Registered-start :
    {first : Bool} {u : User}
    → Registered first u
    → (first ≡ true
        → (u.role ≡ admin)
          × (u.status ≡ approved)
          × ((e : Event) × (t : ℕ) × (u.events
                ≡ e ∷ promoted_to_admin u.id none t ∷ user_approved u.id u.id t ∷ [])))
      × (first ≡ false
          → (u.role ≡ member) × (u.status ≡ pending) × ((e : Event) × (u.events ≡ e ∷ [])))
unfolding register_user register_with_password bootstrap
Registered-start (by_oauth now id email provider oauth_id true h) = (
  λ f. (ground arith, ground arith, (signed_up id email provider oauth_id now, now, ground arith)),
  λ f. cc,
)
Registered-start (by_oauth now id email provider oauth_id false h) = (
  λ f. cc,
  λ f. (ground arith, ground arith, (signed_up id email provider oauth_id now, ground arith)),
)
Registered-start (by_password now id email hash true h) = (
  λ f. (ground arith, ground arith, (registered_with_password id email now, now, ground arith)),
  λ f. cc,
)
Registered-start (by_password now id email hash false h) = (
  λ f. cc,
  λ f. (ground arith, ground arith, (registered_with_password id email now, ground arith)),
)

infix 40 ◌⟶◌
pub data ◌⟶◌ : Status → Status → Type 0 where
  accept : pending ⟶ approved
  refuse : pending ⟶ suspended
  exclude : approved ⟶ suspended
  restore : suspended ⟶ approved

ruleset edges = (accept, refuse, exclude, restore)

abbrev pub is_decision : Command → Bool
is_decision (admit by now) = true
is_decision (turn_away by reason now) = true
is_decision (bar by reason now) = true
is_decision (readmit by now) = true
is_decision _ = false

-- An accepted approval, rejection, suspension or resumption follows an edge of the documented
-- diagram; every other method leaves the status alone; and any refused method changes nothing.
pub user-⟶ :
    (c : Command) (u : User)
    → is_valid u.status ≡ true
    → (is_decision c ≡ true → (execute c u).1 ≡ none → u.status ⟶ (execute c u).0.status)
      × (is_decision c ≡ false → (execute c u).0.status ≡ u.status)
      × ((execute c u).1 ≢ none → (execute c u).0 ≡ u)
unfolding execute approve reject suspend resume promote_to_admin set_password mark_auth_method
    set_persisted_state is_valid
user-⟶ (admit by now) u k = (λ d h. grind (arith, edges), λ d. cc, λ h. ground arith)
user-⟶ (turn_away by reason now) u k = (λ d h. grind (arith, edges), λ d. cc, λ h. ground arith)
user-⟶ (bar by reason now) u k = (λ d h. grind (arith, edges), λ d. cc, λ h. ground arith)
user-⟶ (readmit by now) u k = (λ d h. grind (arith, edges), λ d. cc, λ h. ground arith)
user-⟶ _ u k = (λ d h. absurd (false≢true d), λ d. ground arith, λ h. ground arith)
