-- ===== src/Tenant/Statuses.antt =====
-- internal/domain/tenant/status.go. The Go type is a string: the five constants are constructors,
-- and `other` is any other text.
use duragraph.Base.{Bool, true, false, ◌||◌, List, [], ◌∷◌, String, if◌then◌else◌}
use duragraph.Base.Text.{◌=ₛ◌}

pub data Status : Type 0 where
  pending provisioning approved provisioning_failed suspended : Status
  other : String → Status

unfoldable pub to_string : Status → String
to_string pending = "pending"
to_string provisioning = "provisioning"
to_string approved = "approved"
to_string provisioning_failed = "provisioning_failed"
to_string suspended = "suspended"
to_string (other s) = s

-- The conversion `Status(s)`.
unfoldable pub of_string : String → Status
of_string s =
    if s =ₛ "pending"
    then pending
    else if s =ₛ "provisioning"
    then provisioning
    else if s =ₛ "approved"
    then approved
    else if s =ₛ "provisioning_failed"
    then provisioning_failed
    else if s =ₛ "suspended"
    then suspended
    else other s

unfoldable pub is_valid : Status → Bool
is_valid (other s) = false
is_valid _ = true

unfoldable pub valid_transitions : Status → List Status
valid_transitions pending = provisioning ∷ []
valid_transitions provisioning = approved ∷ provisioning_failed ∷ []
valid_transitions provisioning_failed = provisioning ∷ []
valid_transitions approved = suspended ∷ []
valid_transitions _ = []

unfoldable pub is_allowed : Status → List Status → Bool
unfolding to_string
is_allowed s [] = false
is_allowed s (a ∷ allowed) = to_string a =ₛ to_string s || is_allowed s allowed

unfoldable pub can_transition_to : Status → Status → Bool
unfolding valid_transitions is_allowed
can_transition_to s t = is_allowed t (valid_transitions s)
