-- ===== src/Tenant/Lifecycle.antt =====
-- The life of a tenant: any sequence of the methods of internal/domain/tenant/tenant.go.
use duragraph.Base.{
  ℕ, ◌+◌, ◌≡◌, ◌≢◌, Bool, true, false, Option, none, some, List, [], ◌∷◌, ◌++◌, String, arith,
}
use mathlib.Core.Bool.{false≢true}
use duragraph.Base.Text.{=ₛ_iff}
use duragraph.Base.Errors.{ok, invalid_input}
use duragraph.Tenant.{
  Tenant, Outcome, Event, tenant_pending, tenant_provisioning, tenant_approved,
  tenant_provisioning_failed, tenant_suspended, new_tenant, start_provisioning, approve,
  mark_provisioning_failed, suspend, set_persisted_state,
}
use duragraph.Tenant.Name.{Parsed}
use duragraph.Tenant.Statuses.{
  Status, pending, provisioning, approved, provisioning_failed, suspended, can_transition_to,
  is_valid,
}

pub data Command : Type 0 where
  provision : ℕ → Command
  accept : String → ℕ → ℕ → Command
  give_up : String → ℕ → Command
  bar : String → String → ℕ → Command
  saved : ℕ → Command

unfoldable pub execute : Command → Tenant → Outcome
execute (provision now) t = start_provisioning now t
execute (accept by schema now) t = approve now by schema t
execute (give_up reason now) t = mark_provisioning_failed now reason t
execute (bar by reason now) t = suspend now by reason t
execute (saved now) t = (set_persisted_state now t, none)

unfoldable pub execute_all : List Command → Tenant → Tenant
execute_all [] t = t
execute_all (c ∷ cs) t = execute_all cs (execute c t).0

abbrev pub is_some {ℓ} : {A : Type ℓ} → Option A → Bool
is_some none = false
is_some (some a) = true

-- Whether the database has been provisioned.
abbrev pub was_approved : Status → Bool
was_approved approved = true
was_approved suspended = true
was_approved _ = false

-- How many times the log says that the tenant was approved.
abbrev pub approvals : List Event → ℕ
approvals [] = 0
approvals (tenant_approved i u d s b t ∷ es) = 1 + approvals es
approvals (_ ∷ es) = approvals es

approvals-append :
    (es : List Event) (e : Event) → approvals (es ++ e ∷ []) ≡ approvals es + approvals (e ∷ [])
approvals-append [] e = omega arith
approvals-append (tenant_approved i u d s b t ∷ es) e = omega (arith, approvals-append es e)
approvals-append (tenant_pending i u d t ∷ es) e = approvals-append es e
approvals-append (tenant_provisioning i t ∷ es) e = approvals-append es e
approvals-append (tenant_provisioning_failed i r t ∷ es) e = approvals-append es e
approvals-append (tenant_suspended i b r t ∷ es) e = approvals-append es e

abbrev approvals_at : Status → ℕ
approvals_at approved = 1
approvals_at suspended = 1
approvals_at _ = 0

pub record IsConsistent (t : Tenant) : Type 0 where
  pub known : is_valid t.status ≡ true
  pub reason_failed : t.failure_reason ≢ "" → t.status ≡ provisioning_failed
  pub provisioned : is_some t.provisioned_at ≡ was_approved t.status
  pub schema : is_some t.schema_version ≡ was_approved t.status
  pub approved_once : approvals t.events ≡ approvals_at t.status

new_tenant-IsConsistent :
    (now : ℕ) (id : String) (parse : String → Parsed) (user : String) {t : Tenant}
    → new_tenant now id parse user ≡ ok t
    → IsConsistent t
unfolding new_tenant is_valid
new_tenant-IsConsistent now id parse user h = ground arith

execute-IsConsistent : (c : Command) (t : Tenant) → IsConsistent t → IsConsistent (execute c t).0
unfolding execute start_provisioning approve mark_provisioning_failed suspend set_persisted_state
    can_transition_to is_valid
execute-IsConsistent (provision now) t h =
    ground (arith, approvals-append t.events (tenant_provisioning t.id now))
execute-IsConsistent (accept by schema now) t h =
    ground
      (arith, approvals-append t.events (tenant_approved t.id t.user_id t.db_name schema by now))
execute-IsConsistent (give_up reason now) t h =
    ground (arith, approvals-append t.events (tenant_provisioning_failed t.id reason now))
execute-IsConsistent (bar by reason now) t h =
    ground (arith, approvals-append t.events (tenant_suspended t.id by reason now))
execute-IsConsistent (saved now) t h = ground arith

execute_all-IsConsistent :
    (cs : List Command) (t : Tenant) → IsConsistent t → IsConsistent (execute_all cs t)
unfolding execute_all
execute_all-IsConsistent [] t h = h
execute_all-IsConsistent (c ∷ cs) t h =
    execute_all-IsConsistent cs (execute c t).0 (execute-IsConsistent c t h)

-- A tenant that `NewTenant` made, after any methods: it has a failure reason only while its
-- provisioning has failed, a provisioning time and a schema version exactly once it is approved,
-- and its log has one approval then and none before.
pub tenant_history-IsConsistent :
    (now : ℕ) (id : String) (parse : String → Parsed) (user : String) {t : Tenant}
    (cs : List Command)
    → new_tenant now id parse user ≡ ok t
    → IsConsistent (execute_all cs t)
tenant_history-IsConsistent now id parse user {t} cs h =
    execute_all-IsConsistent cs t (new_tenant-IsConsistent now id parse user h)

infix 40 ◌⟶◌
pub data ◌⟶◌ : Status → Status → Type 0 where
  begin : pending ⟶ provisioning
  succeed : provisioning ⟶ approved
  break : provisioning ⟶ provisioning_failed
  again : provisioning_failed ⟶ provisioning
  close : approved ⟶ suspended

ruleset edges = (begin, succeed, break, again, close)

abbrev pub is_guarded : Command → Bool
is_guarded (saved now) = false
is_guarded _ = true

-- An accepted method follows an edge of the documented diagram, and a refused one leaves the
-- tenant as it was.
pub tenant-⟶ :
    (c : Command) (t : Tenant)
    → is_guarded c ≡ true
    → ((execute c t).1 ≡ none → t.status ⟶ (execute c t).0.status)
      × ((execute c t).1 ≢ none → (execute c t).0 ≡ t)
unfolding execute start_provisioning approve mark_provisioning_failed suspend can_transition_to
tenant-⟶ (provision now) t g = (λ h. grind (arith, edges), λ h. ground arith)
tenant-⟶ (accept by schema now) t g = (λ h. grind (arith, edges), λ h. ground arith)
tenant-⟶ (give_up reason now) t g = (λ h. grind (arith, edges), λ h. ground arith)
tenant-⟶ (bar by reason now) t g = (λ h. grind (arith, edges), λ h. ground arith)
tenant-⟶ (saved now) t g = absurd (false≢true g)

-- Nobody suspends their own tenant, and the guard on the status comes first: the self-suspension
-- error is given exactly for the owner of an approved tenant.
pub suspend_own :
    (now : ℕ) (by reason : String) (t : Tenant)
    → ((suspend now by reason t).1 ≡ none → by ≢ t.user_id)
      × (by ≡ t.user_id
          → t.status ≡ approved
          → suspend now by reason t
            ≡ (t, some (invalid_input "suspended_by_user_id" "cannot suspend own tenant")))
unfolding suspend can_transition_to
suspend_own now by reason t =
    (λ h. ground (arith, =ₛ_iff by t.user_id), λ e a. ground (arith, =ₛ_iff by t.user_id))
