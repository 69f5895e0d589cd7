-- ===== src/Run/Statuses.antt =====
-- internal/domain/run/status.go. The Go type is a string: the twelve constants are constructors,
-- and `other` is any other text.
use duragraph.Base.{
  Bool, true, false, List, [], ◌∷◌, ◌||◌, Option, none, some, String, if◌then◌else◌,
}
use duragraph.Base.Text.{◌=ₛ◌}

pub data Status : Type 0 where
  pending queued running in_progress requires_action success completed : Status
  error failed timeout interrupted cancelled : Status
  other : String → Status

unfoldable pub to_string : Status → String
to_string pending = "pending"
to_string queued = "queued"
to_string running = "running"
to_string in_progress = "in_progress"
to_string requires_action = "requires_action"
to_string success = "success"
to_string completed = "completed"
to_string error = "error"
to_string failed = "failed"
to_string timeout = "timeout"
to_string interrupted = "interrupted"
to_string cancelled = "cancelled"
to_string (other s) = s

abbrev pub constants : List Status
constants =
    pending ∷ queued ∷ running ∷ in_progress ∷ requires_action ∷ success ∷ completed ∷ error
    ∷ failed ∷ timeout ∷ interrupted ∷ cancelled ∷ []

-- The constant that is spelled `s`, if there is one.
unfoldable pub find_constant : String → List Status → Option Status
unfolding to_string
find_constant s [] = none
find_constant s (c ∷ cs) = if to_string c =ₛ s then some c else find_constant s cs

abbrev pub or_other : String → Option Status → Status
or_other s none = other s
or_other s (some c) = c

-- The conversion `Status(s)`.
unfoldable pub of_string : String → Status
unfolding find_constant
of_string s = or_other s (find_constant s constants)

unfoldable pub is_valid : Status → Bool
is_valid (other s) = false
is_valid _ = true

unfoldable pub is_terminal : Status → Bool
is_terminal success = true
is_terminal completed = true
is_terminal error = true
is_terminal failed = true
is_terminal timeout = true
is_terminal interrupted = true
is_terminal cancelled = true
is_terminal _ = false

unfoldable pub normalize : Status → Status
normalize queued = pending
normalize in_progress = running
normalize completed = success
normalize failed = error
normalize s = s

-- `==` on statuses is `==` on their texts.
unfoldable pub same_status : Status → Status → Bool
unfolding to_string
same_status s t = to_string s =ₛ to_string t

-- The map `validTransitions`; the second part of a lookup, `exists`, is `some`.
unfoldable pub valid_transitions : Status → Option (List Status)
valid_transitions pending = some (running ∷ cancelled ∷ [])
valid_transitions running =
    some (requires_action ∷ success ∷ error ∷ timeout ∷ interrupted ∷ cancelled ∷ [])
valid_transitions requires_action =
    some (running ∷ success ∷ error ∷ timeout ∷ interrupted ∷ cancelled ∷ [])
valid_transitions _ = none

unfoldable pub is_allowed : Status → List Status → Bool
unfolding same_status
is_allowed s [] = false
is_allowed s (a ∷ allowed) = same_status s a || is_allowed s allowed

unfoldable pub can_transition_to : Status → Status → Bool
unfolding is_terminal normalize valid_transitions is_allowed
can_transition_to s t = if is_terminal s then false else elim (valid_transitions (normalize s)) [
  | none ↦ false
  | some allowed ↦ is_allowed (normalize t) allowed
]

unfoldable pub to_api_status : Status → String
unfolding to_string normalize
to_api_status s = to_string (normalize s)

unfoldable pub parse_status : String → Status
unfolding of_string is_valid normalize
parse_status s = let status = of_string s in if is_valid status then normalize status else pending
