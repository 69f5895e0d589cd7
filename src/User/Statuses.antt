-- ===== src/User/Statuses.antt =====
-- internal/domain/user/status.go and role.go. Both Go types are strings: the constants are
-- constructors, and `other` is any other text.
use duragraph.Base.{Bool, true, false, ◌||◌, List, [], ◌∷◌, String, if◌then◌else◌}
use duragraph.Base.Text.{◌=ₛ◌}

pub data Status : Type 0 where
  pending approved suspended : Status
  other : String → Status

unfoldable pub to_string : Status → String
to_string pending = "pending"
to_string approved = "approved"
to_string suspended = "suspended"
to_string (other s) = s

-- The conversion `Status(s)`.
unfoldable pub of_string : String → Status
of_string s =
    if s =ₛ "pending"
    then pending
    else if s =ₛ "approved"
    then approved
    else if s =ₛ "suspended"
    then suspended
    else other s

unfoldable pub is_valid : Status → Bool
is_valid (other s) = false
is_valid _ = true

-- The comparisons with a constant.
unfoldable pub is_pending : Status → Bool
is_pending pending = true
is_pending _ = false

unfoldable pub is_approved : Status → Bool
is_approved approved = true
is_approved _ = false

unfoldable pub is_suspended : Status → Bool
is_suspended suspended = true
is_suspended _ = false

unfoldable pub allowed : Status → List Status
allowed pending = approved ∷ suspended ∷ []
allowed approved = suspended ∷ []
allowed suspended = approved ∷ []
allowed _ = []

unfoldable pub is_listed : Status → List Status → Bool
unfolding to_string
is_listed s [] = false
is_listed s (a ∷ targets) = to_string a =ₛ to_string s || is_listed s targets

unfoldable pub can_transition_to : Status → Status → Bool
unfolding allowed is_listed
can_transition_to s t = is_listed t (allowed s)

pub data Role : Type 0 where
  member admin : Role
  other_role : String → Role

-- The constant `RoleUser` is `member`, with the text "user".
unfoldable pub role_of_string : String → Role
role_of_string s = if s =ₛ "user" then member else if s =ₛ "admin" then admin else other_role s

unfoldable pub is_valid_role : Role → Bool
is_valid_role (other_role s) = false
is_valid_role _ = true

unfoldable pub role_to_string : Role → String
role_to_string member = "user"
role_to_string admin = "admin"
role_to_string (other_role s) = s
