-- ===== src/Admission/Users.antt =====
-- internal/infrastructure/persistence/postgres/user_repository.go, `Save` and `GetByID`. A fault is
-- the driver's error, if the statement fails; of the constraints, the unique columns are modelled,
-- and a text that is stored as NULL is empty.
use duragraph.Base.{
  ℕ, Bool, false, not, ◌&&◌, ◌||◌, Option, none, some, List, [], ◌∷◌, ◌++◌, String, if◌then◌else◌,
  ◌==◌,
}
use duragraph.Base.Text.{◌=ₛ◌, concat}
use duragraph.Base.Errors.{
  DomainError, Result, ok, err, err_concurrency, external, internal, new_domain_error, not_found,
  with_details,
}
use duragraph.User.{User}
use duragraph.User.Storage.{UserData, row, reconstruct_from_data}
use duragraph.User.Statuses.{to_string, role_to_string}

unfoldable pub find_user : String → List UserData → Option UserData
find_user id [] = none
find_user id (d ∷ ds) = if d.id =ₛ id then some d else find_user id ds

-- `GetByID`
unfoldable pub get_by_id : String → List UserData → Result User
get_by_id id ds = elim (find_user id ds) [
  | none ↦ err (not_found "user" id)
  | some d ↦ ok (reconstruct_from_data d)
]

-- The columns that `UPDATE` sets; the trigger sets the time.
unfoldable pub updated_user : ℕ → User → UserData → UserData
unfolding to_string role_to_string
updated_user at u d = record d {
  oauth_provider = u.oauth_provider;
  oauth_id = u.oauth_id;
  email = u.email;
  password_hash = u.password_hash;
  auth_method = u.auth_method;
  role = role_to_string u.role;
  status = to_string u.status;
  updated_at = at;
}

-- `WHERE id = $8 AND updated_at = $9`
unfoldable pub is_version : User → UserData → Bool
is_version u d = (d.id =ₛ u.id) && (d.updated_at == u.loaded_updated_at)

unfoldable pub update_rows : ℕ → User → List UserData → List UserData
unfolding updated_user is_version
update_rows at u [] = []
update_rows at u (d ∷ ds) =
    (if is_version u d then updated_user at u d else d) ∷ update_rows at u ds

unfoldable pub has_version : User → List UserData → Bool
unfolding is_version
has_version u [] = false
has_version u (d ∷ ds) = is_version u d || has_version u ds

abbrev pub no_version {ℓ} : {A : Type ℓ} → String → String → Option A → DomainError
no_version resource id none = not_found resource id
no_version resource id (some d) =
    with_details
      (new_domain_error "CONCURRENCY_CONFLICT" (concat resource " was modified by another process")
        (some err_concurrency))
      "id" id

-- The rows and the error.
abbrev pub Saved : Type 0
Saved = List UserData × Option DomainError

unfoldable pub update : Option String → ℕ → User → List UserData → Saved
unfolding has_version update_rows find_user
update (some e) at u ds = (ds, some (internal "failed to update user" (external e)))
update none at u ds =
    if has_version u ds
    then (update_rows at u ds, none)
    else (ds, some (no_version "user" u.id (find_user u.id ds)))

abbrev pub same_login : User → UserData → Bool
same_login u d =
    not (u.oauth_provider =ₛ "")
    && not (u.oauth_id =ₛ "")
    && (d.oauth_provider =ₛ u.oauth_provider)
    && (d.oauth_id =ₛ u.oauth_id)

unfoldable pub is_taken : User → List UserData → Bool
is_taken u [] = false
is_taken u (d ∷ ds) = (d.id =ₛ u.id) || (d.email =ₛ u.email) || same_login u d || is_taken u ds

unfoldable pub insert : Option String → User → List UserData → Saved
unfolding is_taken
insert (some e) u ds = (ds, some (internal "failed to insert user" (external e)))
insert none u ds =
    if is_taken u ds
    then (ds, some (internal "failed to insert user" (external "unique violation")))
    else (ds ++ row u ∷ [], none)

-- `Save`
unfoldable pub save : Option String → ℕ → User → List UserData → Saved
unfolding insert update
save fault at u ds = if u.loaded_updated_at == 0 then insert fault u ds else update fault at u ds
