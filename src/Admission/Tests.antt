-- ===== src/Admission/Tests.antt =====
-- A platform with one user, who may have a tenant.
use duragraph.Base.{◌≡◌, refl, false, Option, none, some, List, [], ◌∷◌, ◌++◌, String}
use duragraph.Base.Errors.{DomainError, Result, ok, err}
use duragraph.User.Storage.{UserData}
use duragraph.Tenant
use duragraph.Tenant.{Tenant, new_tenant}
use duragraph.Tenant.Name.{Parsed, uuid}
use duragraph.Tenant.Storage.{TenantData}
use duragraph.Tenant.Statuses.{pending}
use duragraph.Admission.{World, Context, done, not_saved, suspend_user, approve_user}
use duragraph.Admission.Users.{find_user}
use duragraph.Admission.Tenants.{find_tenant_of, is_taken}
use duragraph.Admission.Changes.{IsUser, IsOther}
use duragraph.Admission.Dangling.{IsTenant, suspend_retry_leaves_tenant}
use duragraph.Admission.Provisions.{approve_user_provisions}

abbrev user_row : String → UserData
user_row status = record {
  id = "u1";
  email = "a@b.c";
  oauth_provider = "github";
  oauth_id = "1";
  password_hash = "";
  auth_method = "oauth";
  role = "user";
  status = status;
  created_at = 1;
  updated_at = 2;
}

abbrev tenant_row : String → TenantData
tenant_row status = record {
  id = "t1";
  user_id = "u1";
  db_name = "tenant_t1";
  status = status;
  schema_version = none;
  provisioned_at = none;
  failure_reason = "";
  created_at = 1;
  updated_at = 2;
}

abbrev world : String → List TenantData → World
world status tenants = record { users = user_row status ∷ []; tenants = tenants; published = [] }

abbrev context : Option String → Context
context fault = record {
  now = 10;
  at = 11;
  fresh = "t2";
  parse = λ s. uuid s;
  user_fault = none;
  tenant_fault = fault;
  publish_fault = none;
}

the_user :
    (status : String) (tenants : List TenantData)
    → IsUser "u1" status (user_row status) (world status tenants)
unfolding find_user
the_user status tenants = record { found = refl; status_is = refl; stamped = λ e. cc; named = refl }

the_tenant :
    (user status : String)
    → IsTenant "u1" status (tenant_row status) (world user (tenant_row status ∷ []))
unfolding find_tenant_of
the_tenant user status = record { found = refl; status_is = refl }

admin : IsOther "u1" "admin"
admin = record { given = refl; other = refl }

suspend_retry_leaves_tenant_example :
    let w = world "approved" (tenant_row "approved" ∷ []) in
    let (w', answer) = suspend_user (context (some "timeout")) "u1" "admin" "" w in
    ((e : DomainError) × (answer ≡ not_saved e))
    × ((d' : UserData) × IsUser "u1" "suspended" d' w')
    × (w'.tenants ≡ w.tenants)
    × (suspend_user (context none) "u1" "admin" "" w' ≡ (w', done))
suspend_retry_leaves_tenant_example =
    suspend_retry_leaves_tenant (context (some "timeout")) (context none) "timeout" "u1" "admin" ""
      "admin" "" (user_row "approved") (tenant_row "approved")
      (world "approved" (tenant_row "approved" ∷ []))
      (the_user "approved" (tenant_row "approved" ∷ [])) (the_tenant "approved" "approved") admin
      refl refl refl (λ e. cc)

abbrev the_result : Result Tenant → Tenant
the_result (ok t) = t
the_result (err e) = record {
  id = "";
  user_id = "";
  db_name = "";
  status = pending;
  schema_version = none;
  provisioned_at = none;
  failure_reason = "";
  created_at = 0;
  updated_at = 0;
  version = 0;
  loaded_updated_at = 0;
  events = [];
}

abbrev new_one : Tenant
new_one = the_result (new_tenant 10 "t2" (λ s. uuid s) "u1")

is_made : new_tenant 10 "t2" (λ s. uuid s) "u1" ≡ ok new_one
unfolding new_tenant Tenant.Name.db_name
is_made = refl

no_tenant : find_tenant_of "u1" [] ≡ none
unfolding find_tenant_of
no_tenant = refl

is_free : is_taken new_one [] ≡ false
unfolding is_taken
is_free = refl

approve_user_provisions_example :
    let (w', answer) = approve_user (context none) "u1" "admin" (world "pending" []) in
    (answer ≡ done)
    × ((d' : UserData) × IsUser "u1" "approved" d' w')
    × ((r : TenantData) × (w'.tenants ≡ [] ++ r ∷ [])
        × (find_tenant_of "u1" w'.tenants ≡ some r)
        × (r.id ≡ "t2")
        × (r.status ≡ "provisioning"))
    × (w'.published ≡ [] ++ ("t2", 10) ∷ [])
approve_user_provisions_example =
    approve_user_provisions (context none) "u1" "admin" (user_row "pending") new_one
      (world "pending" []) (the_user "pending" []) no_tenant admin is_made is_free refl refl refl
      (λ e. cc)
