-- ===== src/Tenant/Storage.antt =====
-- internal/domain/tenant/tenant.go, `TenantData` and `ReconstructFromData`.
use duragraph.Base.{ℕ, ◌≡◌, refl, true, Option, List, [], String, if◌then◌else◌}
use duragraph.Base.Errors.{ok}
use duragraph.Tenant.{Tenant, new_tenant, set_persisted_state}
use duragraph.Tenant.Name.{Parsed}
use duragraph.Tenant.Statuses.{Status, pending, other, of_string, to_string, is_valid}
use duragraph.Tenant.Lifecycle.{Command, execute_all, tenant_history-IsConsistent}

pub record TenantData : Type 0 where
  pub id : String
  pub user_id : String
  pub db_name : String
  pub status : String
  pub schema_version : Option ℕ
  pub provisioned_at : Option ℕ
  pub failure_reason : String
  pub created_at : ℕ
  pub updated_at : ℕ

unfoldable pub status_of_data : String → Status
unfolding of_string is_valid
status_of_data s = if is_valid (of_string s) then of_string s else pending

unfoldable pub reconstruct_from_data : TenantData → Tenant
unfolding status_of_data
reconstruct_from_data d = record {
  id = d.id;
  user_id = d.user_id;
  db_name = d.db_name;
  status = status_of_data d.status;
  schema_version = d.schema_version;
  provisioned_at = d.provisioned_at;
  failure_reason = d.failure_reason;
  created_at = d.created_at;
  updated_at = d.updated_at;
  version = 1;
  loaded_updated_at = d.updated_at;
  events = [];
}

-- The row whose columns are what the getters of a tenant give.
abbrev pub row : Tenant → TenantData
row t = record {
  id = t.id;
  user_id = t.user_id;
  db_name = t.db_name;
  status = to_string t.status;
  schema_version = t.schema_version;
  provisioned_at = t.provisioned_at;
  failure_reason = t.failure_reason;
  created_at = t.created_at;
  updated_at = t.updated_at;
}

status_of_data-to_string : (s : Status) → is_valid s ≡ true → status_of_data (to_string s) ≡ s
unfolding status_of_data to_string
status_of_data-to_string pending h = refl
status_of_data-to_string (other s) h = cc
status_of_data-to_string _ h = refl

-- A tenant with any history that is saved, stored as a row and loaded is the saved tenant, with no
-- uncommitted events and its version counter back at 1: the OCC token of the loaded tenant is the
-- update time that the save observed.
pub load-row-saved_tenant :
    (now : ℕ) (id : String) (parse : String → Parsed) (user : String) {t : Tenant}
    (cs : List Command) (at : ℕ)
    → new_tenant now id parse user ≡ ok t
    → let s = set_persisted_state at (execute_all cs t) in
      reconstruct_from_data (row s) ≡ record s { version = 1; events = [] }
unfolding reconstruct_from_data set_persisted_state
load-row-saved_tenant now id parse user {t} cs at h =
    let known = (tenant_history-IsConsistent now id parse user cs h).known in
    rw (status_of_data-to_string (execute_all cs t).status known) refl
