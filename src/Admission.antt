-- ===== src/Admission.antt =====
-- The commands of a platform administrator, internal/application/command: approve_user.go,
-- reject_user.go, suspend_user.go, resume_user.go and retry_tenant_migration.go.
pub mod Users
pub mod Tenants
pub mod Rows
pub mod Changes
pub mod Dangling
pub mod Provisions
pub mod Recovery
mod Tests
use duragraph.Base.{
  ℕ, Bool, true, false, Option, none, some, List, [], ◌∷◌, ◌++◌, String, if◌then◌else◌,
}
use duragraph.Base.Text.{◌=ₛ◌, concat}
use duragraph.Base.Errors.{DomainError, Result, ok, err, invalid_input, invalid_state}
use duragraph.User
use duragraph.User.{User}
use duragraph.User.Storage.{UserData}
use duragraph.User.Statuses.{is_approved, is_suspended}
use duragraph.Tenant
use duragraph.Tenant.{Tenant, new_tenant, start_provisioning}
use duragraph.Tenant.Name.{Parsed}
use duragraph.Tenant.Storage.{TenantData}
use duragraph.Tenant.Statuses.{Status, provisioning, provisioning_failed, approved, to_string}

-- The two tables, and the messages of the topic `tenant.provisioning`: a tenant's id and the time.
pub record World : Type 0 where
  pub users : List UserData
  pub tenants : List TenantData
  pub published : List (String × ℕ)

-- The clock of the server and that of the database, the id of a new tenant and the UUID parser; the
-- errors of the statements that store a user and a tenant, and of the publisher, where they fail.
pub record Context : Type 0 where
  pub now : ℕ
  pub at : ℕ
  pub fresh : String
  pub parse : String → Parsed
  pub user_fault : Option String
  pub tenant_fault : Option String
  pub publish_fault : Option String

-- What a handler answers; `not_saved` and `not_published` are errors that `errors.Internal` wraps.
pub data Answer : Type 0 where
  done : Answer
  refused : DomainError → Answer
  not_saved : DomainError → Answer
  not_published : String → Answer

-- The aggregate refuses, or it is changed.
abbrev pub accepted {ℓ} :
    {A : Type ℓ} → A × Option DomainError → World → (A → World × Answer) → World × Answer
accepted (a, some e) w k = (w, refused e)
accepted (a, none) w k = k a

abbrev pub saved_users : Users.Saved → World → (World → World × Answer) → World × Answer
saved_users (ds, some e) w k = (record w { users = ds }, not_saved e)
saved_users (ds, none) w k = k (record w { users = ds })

abbrev pub saved_tenants : Tenants.Saved → World → (World → World × Answer) → World × Answer
saved_tenants (ds, some e) w k = (record w { tenants = ds }, not_saved e)
saved_tenants (ds, none) w k = k (record w { tenants = ds })

-- `userRepo.Save` as the last step of a changed user.
abbrev pub store_user : Context → World → User → (World → World × Answer) → World × Answer
store_user c w u k = saved_users (Users.save c.user_fault c.at u w.users) w k

-- The checks of the command's two ids, and the load of the user.
abbrev pub loaded : Result User → World → (User → World × Answer) → World × Answer
loaded (err e) w k = (w, refused e)
loaded (ok u) w k = k u

abbrev pub with_user : String → String → String → World → (User → World × Answer) → World × Answer
with_user id by field w k =
    if id =ₛ ""
    then (w, refused (invalid_input "user_id" "user_id is required"))
    else if by =ₛ ""
    then (w, refused (invalid_input field (concat field " is required")))
    else loaded (Users.get_by_id id w.users) w k

unfoldable pub reject_user : Context → String → String → String → World → World × Answer
unfolding Users.get_by_id
reject_user c id by reason w =
    with_user id by "rejected_by_user_id" w
      (λ u. accepted (User.reject c.now by reason u) w (λ u'. store_user c w u' (λ w'. (w', done))))

unfoldable pub resume_user : Context → String → String → World → World × Answer
unfolding Users.get_by_id
resume_user c id by w = with_user id by "resumed_by_user_id" w (λ u.
    if is_approved u.status
    then (w, done)
    else accepted (User.resume c.now by u) w (λ u'. store_user c w u' (λ w'. (w', done))))

abbrev pub is_status : Status → Status → Bool
is_status s t = to_string s =ₛ to_string t

-- The tenant of the suspended user, if it is approved.
abbrev pub suspend_tenant : Context → String → String → Option Tenant → World → World × Answer
suspend_tenant c by reason none w = (w, done)
suspend_tenant c by reason (some t) w =
    if is_status t.status approved
    then accepted (Tenant.suspend c.now by reason t) w
        (λ t'. saved_tenants (Tenants.save c.tenant_fault c.at t' w.tenants) w (λ w'. (w', done)))
    else (w, done)

abbrev pub suspend_loaded : Context → String → String → String → World → User → World × Answer
suspend_loaded c id by reason w u =
    if is_suspended u.status
    then (w, done)
    else accepted (User.suspend c.now by reason u) w (λ u'.
      store_user c w u'
        (λ w'. suspend_tenant c by reason (Tenants.get_by_user_id id w'.tenants) w'))

unfoldable pub suspend_user : Context → String → String → String → World → World × Answer
unfolding Users.get_by_id Tenants.get_by_user_id
suspend_user c id by reason w =
    with_user id by "suspended_by_user_id" w (suspend_loaded c id by reason w)

-- `publishProvisioning`
abbrev pub publish_provisioning : Context → Tenant → World → World × Answer
publish_provisioning c t w = elim c.publish_fault [
  | some e ↦ (w, not_published e)
  | none ↦ (record w { published = w.published ++ (t.id, c.now) ∷ [] }, done)
]

-- The change to provisioning, its storing and the message.
abbrev pub provision_tenant : Context → Tenant → World → World × Answer
provision_tenant c t w = accepted (start_provisioning c.now t) w (λ t'.
    saved_tenants (Tenants.save c.tenant_fault c.at t' w.tenants) w
      (λ w'. publish_provisioning c t' w'))

-- The tenant is ensured and provisioned.
abbrev pub made : Context → Result Tenant → World → World × Answer
made c (err e) w = (w, not_saved e)
made c (ok t) w = provision_tenant c t w

abbrev pub provision : Context → String → Option Tenant → World → World × Answer
provision c id none w = made c (new_tenant c.now c.fresh c.parse id) w
provision c id (some t) w =
    if is_status t.status provisioning then (w, done) else provision_tenant c t w

abbrev pub provision_user : Context → String → World → World × Answer
provision_user c id w = provision c id (Tenants.get_by_user_id id w.tenants) w

-- An approved user is approved again.
abbrev pub approve_again : Context → String → Option Tenant → World → World × Answer
approve_again c id none w = provision_user c id w
approve_again c id (some t) w =
    if is_status t.status provisioning
    then (w, done)
    else if is_status t.status provisioning_failed
    then provision_user c id w
    else (w, refused (invalid_state (to_string t.status) "approve"))

abbrev pub approve_loaded : Context → String → String → World → User → World × Answer
approve_loaded c id by w u =
    if is_approved u.status
    then approve_again c id (Tenants.get_by_user_id id w.tenants) w
    else accepted (User.approve c.now by u) w
        (λ u'. store_user c w u' (λ w'. provision_user c id w'))

unfoldable pub approve_user : Context → String → String → World → World × Answer
unfolding Users.get_by_id Tenants.get_by_user_id
approve_user c id by w = with_user id by "approved_by_user_id" w (approve_loaded c id by w)

abbrev pub retry_loaded : Context → Result Tenant → World → World × Answer
retry_loaded c (err e) w = (w, refused e)
retry_loaded c (ok t) w =
    if is_status t.status provisioning then publish_provisioning c t w else provision_tenant c t w

unfoldable pub retry_tenant_migration : Context → String → String → World → World × Answer
unfolding Tenants.get_by_id
retry_tenant_migration c id by w =
    if id =ₛ ""
    then (w, refused (invalid_input "tenant_id" "tenant_id is required"))
    else if by =ₛ ""
    then (w, refused (invalid_input "retried_by_user_id" "retried_by_user_id is required"))
    else retry_loaded c (Tenants.get_by_id id w.tenants) w
