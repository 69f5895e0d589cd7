-- ===== src/Tenant.antt =====
-- internal/domain/tenant/tenant.go: the tenant aggregate, written as the run aggregate is. The
-- times of a new tenant and of the OCC token are 0 for Go's zero time.
pub mod Statuses
pub mod Lifecycle
pub mod Name
pub mod Storage
mod Tests
use duragraph.Base.{
  ℕ, Bool, true, false, Option, none, some, List, [], ◌∷◌, ◌++◌, String, if◌then◌else◌, inc_int,
}
use duragraph.Base.Text.{◌=ₛ◌}
use duragraph.Base.Errors.{
  DomainError, Result, ok, err, invalid_input, invalid_state, internal, external,
}
use Name.{Parsed, named, unnamed, db_name}
use Statuses.{
  Status, pending, provisioning, approved, provisioning_failed, suspended, to_string, of_string,
  is_valid, can_transition_to,
}

-- internal/domain/tenant/events.go: the fields in the order of the Go structs.
pub data Event : Type 0 where
  tenant_pending : String → String → String → ℕ → Event
  tenant_provisioning : String → ℕ → Event
  tenant_approved : String → String → String → ℕ → String → ℕ → Event
  tenant_provisioning_failed : String → String → ℕ → Event
  tenant_suspended : String → String → String → ℕ → Event

pub record Tenant : Type 0 where
  pub id : String
  pub user_id : String
  pub db_name : String
  pub status : Status
  pub schema_version : Option ℕ
  pub provisioned_at : Option ℕ
  pub failure_reason : String
  pub created_at : ℕ
  pub updated_at : ℕ
  pub version : ℕ
  pub loaded_updated_at : ℕ
  pub events : List Event

abbrev pub Outcome : Type 0
Outcome = Tenant × Option DomainError

unfoldable pub record_event : Tenant → Event → Tenant
record_event t e = record t { events = t.events ++ e ∷ [] }

-- `parse` is the UUID library's parser.
unfoldable pub new_tenant : ℕ → String → (String → Parsed) → String → Result Tenant
unfolding record_event
new_tenant now id parse user =
    let made = λ (db : String).
      record_event
        (record {
          id = id;
          user_id = user;
          db_name = db;
          status = pending;
          schema_version = none;
          provisioned_at = none;
          failure_reason = "";
          created_at = now;
          updated_at = now;
          version = 1;
          loaded_updated_at = 0;
          events = [];
        })
        (tenant_pending id user db now) in
    if user =ₛ ""
    then err (invalid_input "user_id" "user_id is required")
    else elim (db_name parse id) [
      | unnamed x ↦ err (internal "failed to derive tenant db name" x)
      | named db ↦ ok (made db)
    ]

abbrev refuse : Tenant → String → Outcome
refuse t attempted = (t, some (invalid_state (to_string t.status) attempted))

unfoldable pub start_provisioning : ℕ → Tenant → Outcome
unfolding record_event
start_provisioning now t =
    let t' = record t { status = provisioning; failure_reason = ""; updated_at = now } in
    if can_transition_to t.status provisioning
    then (record_event t' (tenant_provisioning t.id now), none)
    else refuse t "start_provisioning"

unfoldable pub approve : ℕ → String → ℕ → Tenant → Outcome
unfolding record_event
approve now by schema t =
    let t' = record t {
      status = approved;
      schema_version = some schema;
      provisioned_at = some now;
      updated_at = now;
    } in
    if can_transition_to t.status approved
    then (record_event t' (tenant_approved t.id t.user_id t.db_name schema by now), none)
    else refuse t "approve"

unfoldable pub mark_provisioning_failed : ℕ → String → Tenant → Outcome
unfolding record_event
mark_provisioning_failed now reason t =
    let t' = record t { status = provisioning_failed; failure_reason = reason; updated_at = now } in
    if can_transition_to t.status provisioning_failed
    then (record_event t' (tenant_provisioning_failed t.id reason now), none)
    else refuse t "mark_provisioning_failed"

unfoldable pub suspend : ℕ → String → String → Tenant → Outcome
unfolding record_event
suspend now by reason t =
    let t' = record t { status = suspended; updated_at = now } in
    if can_transition_to t.status suspended
    then (if by =ₛ t.user_id
        then (t, some (invalid_input "suspended_by_user_id" "cannot suspend own tenant"))
        else (record_event t' (tenant_suspended t.id by reason now), none))
    else refuse t "suspend"

unfoldable pub clear_events : Tenant → Tenant
clear_events t = record t { events = [] }

unfoldable pub set_persisted_state : ℕ → Tenant → Tenant
unfolding inc_int
set_persisted_state at t = record t {
  updated_at = at;
  loaded_updated_at = at;
  version = inc_int t.version;
}
