-- ===== src/Admission/Rows.antt =====
-- What the statements on the tables of users and tenants leave, for the one who reads again.
use duragraph.Base.{ℕ, ◌≡◌, ◌≢◌, true, false, none, some, List, [], ◌∷◌, ◌++◌, String, arith}
use duragraph.Base.Text.{=ₛ_iff}
use duragraph.User.{User}
use duragraph.User.Storage.{UserData}
use duragraph.Tenant.{Tenant}
use duragraph.Tenant.Storage.{TenantData, row}
use duragraph.Admission.Users.{
  find_user, is_version, has_version, update_rows, updated_user, update, save,
}
use duragraph.Admission.Tenants
use duragraph.Admission.Tenants.{find_tenant_of, is_taken}

-- The row that is found is the one that the update changes.
find_user-update_rows :
    (at : ℕ) (id : String) (u : User) (ds : List UserData) {d : UserData}
    → find_user id ds ≡ some d
    → u.id ≡ id
    → u.loaded_updated_at ≡ d.updated_at
    → find_user id (update_rows at u ds) ≡ some (updated_user at u d)
unfolding find_user update_rows is_version updated_user
find_user-update_rows at id u [] h i e = cc
find_user-update_rows at id u (x ∷ ds) {d} h i e =
    ground (arith, find_user-update_rows at id u ds {d = d}, =ₛ_iff x.id id, =ₛ_iff x.id u.id)

has_version-found :
    (id : String) (u : User) (ds : List UserData) {d : UserData}
    → find_user id ds ≡ some d
    → u.id ≡ id
    → u.loaded_updated_at ≡ d.updated_at
    → has_version u ds ≡ true
unfolding find_user has_version is_version
has_version-found id u [] h i e = cc
has_version-found id u (x ∷ ds) {d} h i e =
    ground (arith, has_version-found id u ds {d = d}, =ₛ_iff x.id id, =ₛ_iff x.id u.id)

-- A user that was loaded and changed is stored.
pub save-loaded :
    (at : ℕ) (id : String) (u : User) (ds : List UserData) {d : UserData}
    → find_user id ds ≡ some d
    → u.id ≡ id
    → u.loaded_updated_at ≡ d.updated_at
    → d.updated_at ≢ 0
    → (save none at u ds ≡ (update_rows at u ds, none))
      × (find_user id (update_rows at u ds) ≡ some (updated_user at u d))
unfolding save update
save-loaded at id u ds {d} h i e z = (
  ground (arith, has_version-found id u ds {d = d} h i e),
  find_user-update_rows at id u ds h i e,
)

-- A tenant that is inserted is found by its user.
find_tenant_of-append :
    (user : String) (t : Tenant) (ds : List TenantData)
    → find_tenant_of user ds ≡ none
    → t.user_id ≡ user
    → find_tenant_of user (ds ++ row t ∷ []) ≡ some (row t)
unfolding find_tenant_of
find_tenant_of-append user t [] h i = ground (arith, =ₛ_iff t.user_id user)
find_tenant_of-append user t (d ∷ ds) h i =
    ground (arith, find_tenant_of-append user t ds, =ₛ_iff d.user_id user)

pub insert-found :
    (at : ℕ) (user : String) (t : Tenant) (ds : List TenantData)
    → find_tenant_of user ds ≡ none
    → t.user_id ≡ user
    → t.loaded_updated_at ≡ 0
    → is_taken t ds ≡ false
    → (Tenants.save none at t ds ≡ (ds ++ row t ∷ [], none))
      × (find_tenant_of user (ds ++ row t ∷ []) ≡ some (row t))
unfolding Tenants.save Tenants.insert
insert-found at user t ds h i z free = (ground arith, find_tenant_of-append user t ds h i)
