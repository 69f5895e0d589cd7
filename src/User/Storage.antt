-- ===== src/User/Storage.antt =====
-- internal/domain/user/user.go, `UserData` and `ReconstructFromData`.
use duragraph.Base.{ℕ, ◌≡◌, refl, Bool, true, List, [], ◌∷◌, String, arith, if◌then◌else◌, ◌≢◌}
use duragraph.Base.Text.{◌=ₛ◌, =ₛ_iff}
use duragraph.User.{
  User, approve, reject, suspend, resume, promote_to_admin, set_password, mark_auth_method,
  set_persisted_state, register_user, register_with_password, bootstrap,
}
use duragraph.User.Statuses.{
  Status, pending, other, Role, member, other_role, of_string, to_string, is_valid, role_of_string,
  role_to_string, is_valid_role,
}
use duragraph.User.Lifecycle.{
  Command, admit, logged_in, change_password, execute, execute_all, Registered, by_oauth,
  by_password, user_history-IsConsistent,
}

pub record UserData : Type 0 where
  pub id : String
  pub email : String
  pub oauth_provider : String
  pub oauth_id : String
  pub password_hash : String
  pub auth_method : String
  pub role : String
  pub status : String
  pub created_at : ℕ
  pub updated_at : ℕ

unfoldable pub role_of_data : String → Role
unfolding role_of_string is_valid_role
role_of_data s = if is_valid_role (role_of_string s) then role_of_string s else member

unfoldable pub status_of_data : String → Status
unfolding of_string is_valid
status_of_data s = if is_valid (of_string s) then of_string s else pending

unfoldable pub reconstruct_from_data : UserData → User
unfolding role_of_data status_of_data
reconstruct_from_data d = record {
  id = d.id;
  email = d.email;
  oauth_provider = d.oauth_provider;
  oauth_id = d.oauth_id;
  password_hash = d.password_hash;
  auth_method = if d.auth_method =ₛ "" then "oauth" else d.auth_method;
  role = role_of_data d.role;
  status = status_of_data d.status;
  created_at = d.created_at;
  updated_at = d.updated_at;
  version = 1;
  loaded_updated_at = d.updated_at;
  events = [];
}

-- The row whose columns are what the getters of a user give.
abbrev pub row : User → UserData
row u = record {
  id = u.id;
  email = u.email;
  oauth_provider = u.oauth_provider;
  oauth_id = u.oauth_id;
  password_hash = u.password_hash;
  auth_method = u.auth_method;
  role = role_to_string u.role;
  status = to_string u.status;
  created_at = u.created_at;
  updated_at = u.updated_at;
}

status_of_data-to_string : (s : Status) → is_valid s ≡ true → status_of_data (to_string s) ≡ s
unfolding status_of_data to_string
status_of_data-to_string pending h = refl
status_of_data-to_string (other s) h = cc
status_of_data-to_string _ h = refl

role_of_data-to_string : (r : Role) → is_valid_role r ≡ true → role_of_data (role_to_string r) ≡ r
unfolding role_of_data role_to_string
role_of_data-to_string member h = refl
role_of_data-to_string (other_role s) h = cc
role_of_data-to_string _ h = refl

oauth_named : ◌≢◌ {A = String} "oauth" ""
oauth_named = ground (arith, =ₛ_iff "oauth" "")

password_named : ◌≢◌ {A = String} "password" ""
password_named = ground (arith, =ₛ_iff "password" "")

abbrev HasMethod : User → Type 0
HasMethod u = u.auth_method ≢ ""

execute-HasMethod : (c : Command) (u : User) → HasMethod u → HasMethod (execute c u).0
unfolding execute approve reject suspend resume promote_to_admin set_password mark_auth_method
    set_persisted_state
execute-HasMethod (admit by now) u h = ground arith
execute-HasMethod (logged_in method now) u h =
    ground (arith, =ₛ_iff method "oauth", =ₛ_iff method "password", oauth_named, password_named)
execute-HasMethod (change_password hash by now) u h = ground (arith, password_named)
execute-HasMethod _ u h = ground arith

execute_all-HasMethod : (cs : List Command) (u : User) → HasMethod u → HasMethod (execute_all cs u)
unfolding execute_all
execute_all-HasMethod [] u h = h
execute_all-HasMethod (c ∷ cs) u h =
    execute_all-HasMethod cs (execute c u).0 (execute-HasMethod c u h)

Registered-HasMethod : {first : Bool} {u : User} → Registered first u → HasMethod u
unfolding register_user register_with_password bootstrap
Registered-HasMethod (by_oauth now id email provider oauth_id first h) = ground (arith, oauth_named)
Registered-HasMethod (by_password now id email hash first h) = ground (arith, password_named)

-- A registered user with any history that is saved, stored as a row and loaded is the saved user,
-- with no uncommitted events and its version counter back at 1.
pub load-row-saved_user :
    {first : Bool} {u : User} (cs : List Command) (at : ℕ)
    → Registered first u
    → let s = set_persisted_state at (execute_all cs u) in
      reconstruct_from_data (row s) ≡ record s { version = 1; events = [] }
unfolding reconstruct_from_data set_persisted_state
load-row-saved_user {first} {u} cs at r =
    let done = user_history-IsConsistent cs r in
    let method = execute_all-HasMethod cs u (Registered-HasMethod r) in
    ground (
      arith,
      status_of_data-to_string (execute_all cs u).status,
      role_of_data-to_string (execute_all cs u).role,
      =ₛ_iff (execute_all cs u).auth_method "",
    )
