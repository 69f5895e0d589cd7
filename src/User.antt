-- ===== src/User.antt =====
-- internal/domain/user/user.go: the user aggregate. Times and new UUIDs are arguments, and the
-- comparison of the bcrypt library is one of `verify_password`.
pub mod Statuses
pub mod Lifecycle
pub mod Authority
pub mod Storage
mod Tests
use duragraph.Base.{
  ℕ, Bool, true, false, not, ◌&&◌, Option, none, some, List, [], ◌∷◌, ◌++◌, String, if◌then◌else◌,
  inc_int,
}
use duragraph.Base.Text.{◌=ₛ◌, concat}
use duragraph.Base.Errors.{DomainError, Result, ok, err, invalid_input, invalid_state}
use Statuses.{
  Status, pending, approved, suspended, is_pending, is_approved, is_suspended, to_string, Role,
  member, admin,
}

-- internal/domain/user/events.go: the fields in the order of the Go structs.
pub data Event : Type 0 where
  signed_up : String → String → String → String → ℕ → Event
  promoted_to_admin : String → Option String → ℕ → Event
  user_approved : String → String → ℕ → Event
  user_rejected : String → String → String → ℕ → Event
  user_suspended : String → String → String → ℕ → Event
  registered_with_password : String → String → ℕ → Event
  password_changed : String → String → ℕ → Event

pub record User : Type 0 where
  pub id : String
  pub email : String
  pub oauth_provider : String
  pub oauth_id : String
  pub password_hash : String
  pub auth_method : String
  pub role : Role
  pub status : Status
  pub created_at : ℕ
  pub updated_at : ℕ
  pub version : ℕ
  pub loaded_updated_at : ℕ
  pub events : List Event

abbrev pub Outcome : Type 0
Outcome = User × Option DomainError

unfoldable pub record_event : User → Event → User
record_event u e = record u { events = u.events ++ e ∷ [] }

-- The bootstrap path of both registrations: the first user is an approved admin.
unfoldable pub bootstrap : ℕ → Bool → User → User
unfolding record_event
bootstrap now false u = u
bootstrap now true u =
    let raised = record u { role = admin; status = approved } in
    let promoted = record_event raised (promoted_to_admin u.id none now) in
    record_event promoted (user_approved u.id u.id now)

unfoldable pub register_user : ℕ → String → String → String → String → Bool → Result User
unfolding bootstrap record_event
register_user now id email provider oauth_id first =
    let u : User = record {
      id = id;
      email = email;
      oauth_provider = provider;
      oauth_id = oauth_id;
      password_hash = "";
      auth_method = "oauth";
      role = member;
      status = pending;
      created_at = now;
      updated_at = now;
      version = 1;
      loaded_updated_at = 0;
      events = [];
    } in
    let made = bootstrap now first (record_event u (signed_up id email provider oauth_id now)) in
    if email =ₛ ""
    then err (invalid_input "email" "email is required")
    else if provider =ₛ ""
    then err (invalid_input "oauth_provider" "oauth_provider is required")
    else if oauth_id =ₛ ""
    then err (invalid_input "oauth_id" "oauth_id is required")
    else ok made

-- The display name is not used.
unfoldable pub register_with_password : ℕ → String → String → String → Bool → Result User
unfolding bootstrap record_event
register_with_password now id email hash first =
    let u : User = record {
      id = id;
      email = email;
      oauth_provider = "";
      oauth_id = "";
      password_hash = hash;
      auth_method = "password";
      role = member;
      status = pending;
      created_at = now;
      updated_at = now;
      version = 1;
      loaded_updated_at = 0;
      events = [];
    } in
    let made = bootstrap now first (record_event u (registered_with_password id email now)) in
    if email =ₛ ""
    then err (invalid_input "email" "email is required")
    else if hash =ₛ ""
    then err (invalid_input "password_hash" "password_hash is required")
    else ok made

unfoldable pub verify_password : (String → String → Bool) → String → User → Bool
verify_password compare plaintext u =
    if u.password_hash =ₛ "" then false else compare u.password_hash plaintext

unfoldable pub set_password : ℕ → String → String → User → Outcome
unfolding record_event is_suspended
set_password now hash by u =
    let u' = record u {
      password_hash = hash;
      auth_method = if u.auth_method =ₛ "" then "password" else u.auth_method;
      updated_at = now;
    } in
    if hash =ₛ ""
    then (u, some (invalid_input "password_hash" "password_hash is required"))
    else if by =ₛ ""
    then (u, some (invalid_input "changed_by_user_id" "changed_by_user_id is required"))
    else if is_suspended u.status
    then (u, some (invalid_state (to_string u.status) "set_password"))
    else (record_event u' (password_changed u.id by now), none)

unfoldable pub mark_auth_method : ℕ → String → User → User
mark_auth_method now method u =
    if not (method =ₛ "oauth") && not (method =ₛ "password")
    then u
    else record u { auth_method = method; updated_at = now }

-- The guards that three administrative methods share: an actor is named, is not the user, and the
-- status allows it.
unfoldable pub guarded : String → String → String → Bool → String → User → User → Outcome
guarded by field self allowed attempted u done =
    if by =ₛ ""
    then (u, some (invalid_input field (concat field " is required")))
    else if by =ₛ u.id
    then (u, some (invalid_input field self))
    else if allowed
    then (done, none)
    else (u, some (invalid_state (to_string u.status) attempted))

unfoldable pub approve : ℕ → String → User → Outcome
unfolding record_event guarded is_pending
approve now by u =
    let u' = record u { status = approved; updated_at = now } in
    guarded by "approved_by_user_id" "cannot approve self" (is_pending u.status) "approve" u
      (record_event u' (user_approved u.id by now))

unfoldable pub reject : ℕ → String → String → User → Outcome
unfolding record_event guarded is_pending
reject now by reason u =
    let u' = record u { status = suspended; updated_at = now } in
    guarded by "rejected_by_user_id" "cannot reject self" (is_pending u.status) "reject" u
      (record_event u' (user_rejected u.id by reason now))

unfoldable pub suspend : ℕ → String → String → User → Outcome
unfolding record_event guarded is_approved
suspend now by reason u =
    let u' = record u { status = suspended; updated_at = now } in
    guarded by "suspended_by_user_id" "cannot suspend self" (is_approved u.status) "suspend" u
      (record_event u' (user_suspended u.id by reason now))

-- No guard against acting on oneself.
unfoldable pub resume : ℕ → String → User → Outcome
unfolding record_event is_suspended
resume now by u =
    let u' = record u { status = approved; updated_at = now } in
    if by =ₛ ""
    then (u, some (invalid_input "resumed_by_user_id" "resumed_by_user_id is required"))
    else if is_suspended u.status
    then (record_event u' (user_approved u.id by now), none)
    else (u, some (invalid_state (to_string u.status) "resume"))

-- The role changes, and the status is not read.
unfoldable pub promote_to_admin : ℕ → String → User → Outcome
unfolding record_event
promote_to_admin now by u =
    let u' = record u { role = admin; updated_at = now } in
    if by =ₛ ""
    then (u, some (invalid_input "promoted_by_user_id" "promoted_by_user_id is required"))
    else if by =ₛ u.id
    then (u, some (invalid_input "promoted_by_user_id" "cannot promote self"))
    else (record_event u' (promoted_to_admin u.id (some by) now), none)

unfoldable pub clear_events : User → User
clear_events u = record u { events = [] }

unfoldable pub set_persisted_state : ℕ → User → User
unfolding inc_int
set_persisted_state at u = record u {
  updated_at = at;
  loaded_updated_at = at;
  version = inc_int u.version;
}
