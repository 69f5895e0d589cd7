-- ===== src/User/Tests.antt =====
-- Two users, the first one and another, and the methods on them.
use duragraph.Base.{◌≡◌, refl, true, false, List, [], ◌∷◌}
use duragraph.Base.Errors.{Result, ok, err}
use duragraph.User.{User, register_user, register_with_password}
use duragraph.User.Statuses.{pending, member, is_valid}
use duragraph.User.Lifecycle.{
  Command, admit, bar, readmit, promote, change_password, execute_all, Registered, by_oauth,
  by_password,
}
use duragraph.User.Authority.{promoted_by_other, decided_by_other, needs_other}

abbrev empty_user : User
empty_user = record {
  id = "";
  email = "";
  oauth_provider = "";
  oauth_id = "";
  password_hash = "";
  auth_method = "";
  role = member;
  status = pending;
  created_at = 0;
  updated_at = 0;
  version = 0;
  loaded_updated_at = 0;
  events = [];
}

abbrev the_user : Result User → User
the_user (ok u) = u
the_user (err _) = empty_user

abbrev founder : User
founder = the_user (register_user 1 "u1" "a@x.org" "github" "7" true)

founder-Registered : Registered true founder
unfolding register_user
founder-Registered = by_oauth 1 "u1" "a@x.org" "github" "7" true refl

abbrev guest : User
guest = the_user (register_with_password 2 "u2" "b@x.org" "hash" false)

guest-Registered : Registered false guest
unfolding register_with_password
guest-Registered = by_password 2 "u2" "b@x.org" "hash" false refl

-- The guest tries alone, is let in by the founder, changes the password and is barred.
abbrev commands : List Command
commands =
    admit "u2" 3
    ∷ promote "u2" 4
    ∷ admit "u1" 5
    ∷ change_password "hash2" "u2" 6
    ∷ bar "u1" "spam" 7
    ∷ readmit "u1" 8
    ∷ []

guest_valid : is_valid guest.status ≡ true
unfolding register_with_password is_valid
guest_valid = refl

needs_other_example :
    (promoted_by_other guest.id commands ≡ false → (execute_all commands guest).role ≡ member)
    × (decided_by_other guest.id commands ≡ false → (execute_all commands guest).status ≡ pending)
needs_other_example = needs_other commands guest-Registered
