-- ===== src/Tenant/Tests.antt =====
-- A tenant, and its methods on it.
use duragraph.Base.{◌≡◌, ◌≢◌, refl, sym, ap, true, none, List, [], ◌∷◌, String}
use duragraph.Base.Errors.{Result, ok, err}
use duragraph.Tenant.{
  Tenant, new_tenant, start_provisioning, approve, set_persisted_state, mark_provisioning_failed,
}
use duragraph.Tenant.Name.{Parsed, uuid, bad, named, db_name, is_canonical, is_hex}
use duragraph.Tenant.Statuses.{pending, approved, can_transition_to}
use duragraph.Tenant.Lifecycle.{
  Command, provision, accept, give_up, saved, execute, execute_all, IsConsistent,
  tenant_history-IsConsistent, ◌⟶◌, tenant-⟶,
}

abbrev uuid_text : String
uuid_text = "0b1c2d3e-4f50-6172-8394-a5b6c7d8e9f0"

-- Every text is read as one UUID.
abbrev parse : String → Parsed
parse s = uuid uuid_text

abbrev empty_tenant : Tenant
empty_tenant = record {
  id = "";
  user_id = "";
  db_name = "";
  status = pending;
  schema_version = none;
  provisioned_at = none;
  failure_reason = "";
  created_at = 0;
  updated_at = 0;
  version = 0;
  loaded_updated_at = 0;
  events = [];
}

abbrev the_tenant : Result Tenant → Tenant
the_tenant (ok t) = t
the_tenant (err _) = empty_tenant

abbrev made : Tenant
made = the_tenant (new_tenant 5 uuid_text parse "owner")

made_ok : new_tenant 5 uuid_text parse "owner" ≡ ok made
unfolding new_tenant db_name
made_ok = refl

-- The first attempt at the database fails, and the second one succeeds.
abbrev commands : List Command
commands = provision 6 ∷ give_up "timeout" 7 ∷ provision 8 ∷ saved 9 ∷ accept "admin" 3 10 ∷ []

abbrev provisioned : Tenant
provisioned = execute_all commands made

provisioned_status : provisioned.status ≡ approved
unfolding execute_all execute new_tenant db_name can_transition_to start_provisioning approve
    set_persisted_state mark_provisioning_failed
provisioned_status = refl

tenant_history-IsConsistent_example : IsConsistent provisioned
tenant_history-IsConsistent_example =
    tenant_history-IsConsistent 5 uuid_text parse "owner" commands made_ok

tenant-⟶_example :
    ((execute (provision 6) made).1 ≡ none → made.status ⟶ (execute (provision 6) made).0.status)
    × ((execute (provision 6) made).1 ≢ none → (execute (provision 6) made).0 ≡ made)
tenant-⟶_example = tenant-⟶ (provision 6) made refl

abbrev uuid_of : Parsed → String
uuid_of (uuid u) = u
uuid_of (bad e) = e

parsed_canonical : (u : String) → parse uuid_text ≡ uuid u → is_canonical 32 u ≡ true
unfolding is_hex
parsed_canonical u h = rw (sym (ap uuid_of h)) refl

abbrev name : String
name = "tenant_0b1c2d3e4f5061728394a5b6c7d8e9f0"

name_derived : db_name parse uuid_text ≡ named name
unfolding db_name
name_derived = refl
