-- ===== src/Admission/Tenants.antt =====
-- internal/infrastructure/persistence/postgres/tenant_repository.go, `Save`, `GetByID` and
-- `GetByUserID`, written as the repository of users is.
use duragraph.Base.{
  ℕ, Bool, false, ◌&&◌, ◌||◌, Option, none, some, List, [], ◌∷◌, ◌++◌, String, if◌then◌else◌, ◌==◌,
}
use duragraph.Base.Text.{◌=ₛ◌}
use duragraph.Base.Errors.{DomainError, Result, ok, err, external, internal, not_found}
use duragraph.Admission.Users.{no_version}
use duragraph.Tenant.{Tenant}
use duragraph.Tenant.Storage.{TenantData, row, reconstruct_from_data}
use duragraph.Tenant.Statuses.{to_string}

unfoldable pub find_tenant : String → List TenantData → Option TenantData
find_tenant id [] = none
find_tenant id (d ∷ ds) = if d.id =ₛ id then some d else find_tenant id ds

unfoldable pub find_tenant_of : String → List TenantData → Option TenantData
find_tenant_of user [] = none
find_tenant_of user (d ∷ ds) = if d.user_id =ₛ user then some d else find_tenant_of user ds

-- `GetByID`
unfoldable pub get_by_id : String → List TenantData → Result Tenant
get_by_id id ds = elim (find_tenant id ds) [
  | none ↦ err (not_found "tenant" id)
  | some d ↦ ok (reconstruct_from_data d)
]

-- `GetByUserID`, whose only error here is `NotFound`.
unfoldable pub get_by_user_id : String → List TenantData → Option Tenant
get_by_user_id user ds = elim (find_tenant_of user ds) [
  | none ↦ none
  | some d ↦ some (reconstruct_from_data d)
]

unfoldable pub updated_tenant : ℕ → Tenant → TenantData → TenantData
unfolding to_string
updated_tenant at t d = record d {
  status = to_string t.status;
  schema_version = t.schema_version;
  provisioned_at = t.provisioned_at;
  failure_reason = t.failure_reason;
  updated_at = at;
}

-- `WHERE id = $5 AND updated_at = $6`
unfoldable pub is_version : Tenant → TenantData → Bool
is_version t d = (d.id =ₛ t.id) && (d.updated_at == t.loaded_updated_at)

unfoldable pub update_rows : ℕ → Tenant → List TenantData → List TenantData
unfolding updated_tenant is_version
update_rows at t [] = []
update_rows at t (d ∷ ds) =
    (if is_version t d then updated_tenant at t d else d) ∷ update_rows at t ds

unfoldable pub has_version : Tenant → List TenantData → Bool
unfolding is_version
has_version t [] = false
has_version t (d ∷ ds) = is_version t d || has_version t ds

abbrev pub Saved : Type 0
Saved = List TenantData × Option DomainError

unfoldable pub update : Option String → ℕ → Tenant → List TenantData → Saved
unfolding has_version update_rows find_tenant
update (some e) at t ds = (ds, some (internal "failed to update tenant" (external e)))
update none at t ds =
    if has_version t ds
    then (update_rows at t ds, none)
    else (ds, some (no_version "tenant" t.id (find_tenant t.id ds)))

unfoldable pub is_taken : Tenant → List TenantData → Bool
is_taken t [] = false
is_taken t (d ∷ ds) =
    (d.id =ₛ t.id) || (d.user_id =ₛ t.user_id) || (d.db_name =ₛ t.db_name) || is_taken t ds

unfoldable pub insert : Option String → Tenant → List TenantData → Saved
unfolding is_taken
insert (some e) t ds = (ds, some (internal "failed to insert tenant" (external e)))
insert none t ds =
    if is_taken t ds
    then (ds, some (internal "failed to insert tenant" (external "unique violation")))
    else (ds ++ row t ∷ [], none)

-- `Save`
unfoldable pub save : Option String → ℕ → Tenant → List TenantData → Saved
unfolding insert update
save fault at t ds = if t.loaded_updated_at == 0 then insert fault t ds else update fault at t ds
