-- ===== src/Run/Aliases.antt =====
-- The two vocabularies of internal/domain/run/status.go: `Normalize`, `ParseStatus`, and the
-- conversions between a status and its text.
use duragraph.Base.{
  ◌≡◌, refl, true, Option, none, some, List, [], ◌∷◌, String, arith, if◌then◌else◌, inl, inr,
  Bool-cases,
}
use duragraph.Base.Text.{◌=ₛ◌, =ₛ_iff}
use duragraph.Run.Statuses.{
  Status, pending, other, is_terminal, is_valid, normalize, can_transition_to, of_string, to_string,
  parse_status, find_constant, constants, or_other,
}

normalize_idem : (s : Status) → normalize (normalize s) ≡ normalize s
unfolding normalize
normalize_idem pending = refl
normalize_idem _ = refl

is_terminal-normalize : (s : Status) → is_terminal (normalize s) ≡ is_terminal s
unfolding normalize is_terminal
is_terminal-normalize pending = refl
is_terminal-normalize _ = refl

-- The state machine does not tell a status from its alias, on either side of a transition.
pub can_transition_to-normalize :
    (s t : Status) → can_transition_to (normalize s) (normalize t) ≡ can_transition_to s t
unfolding can_transition_to
can_transition_to-normalize pending t = cc (normalize_idem t)
can_transition_to-normalize _ t = cc (normalize_idem t)

-- The text of `Status(s)` is `s`.
to_string-find_constant :
    (s : String) (cs : List Status) {c : Status} → find_constant s cs ≡ some c → to_string c ≡ s
unfolding find_constant
to_string-find_constant s [] h = cc
to_string-find_constant s (x ∷ cs) h = elim (Bool-cases (to_string x =ₛ s)) [
  | inl e ↦ ground (arith, =ₛ_iff (to_string x) s)
  | inr e ↦ to_string-find_constant s cs (rw e at h)
]

to_string-or_other :
    (s : String) (o : Option Status)
    → ((c : Status) → o ≡ some c → to_string c ≡ s)
    → to_string (or_other s o) ≡ s
unfolding to_string
to_string-or_other s none h = refl
to_string-or_other s (some c) h = h c refl

-- `Status(s)` of the text of a constant is that constant.
of_string-to_string : (s : Status) → is_valid s ≡ true → of_string (to_string s) ≡ s
unfolding of_string is_valid
of_string-to_string pending h = refl
of_string-to_string (other x) h = cc
of_string-to_string _ h = refl

to_string-of_string : (s : String) → to_string (of_string s) ≡ s
unfolding of_string
to_string-of_string s =
    to_string-or_other s (find_constant s constants) (λ c e. to_string-find_constant s constants e)

-- A status and its text determine one another: `Status(s)` has the text `s`, and the text of each
-- of the twelve constants is read back as that constant.
pub of_string_inverse :
    (s : String) (c : Status)
    → (to_string (of_string s) ≡ s) × (is_valid c ≡ true → of_string (to_string c) ≡ c)
of_string_inverse s c = (to_string-of_string s, of_string-to_string c)

parse_of : (c : Status) → Status
unfolding is_valid normalize
parse_of c = if is_valid c then normalize c else pending

parse_of_again :
    (c : Status) → (is_valid (parse_of c) ≡ true) × (normalize (parse_of c) ≡ parse_of c)
unfolding parse_of
parse_of_again pending = (refl, refl)
parse_of_again _ = (refl, refl)

parse_status-eq : (s : String) → parse_status s ≡ parse_of (of_string s)
unfolding parse_status parse_of
parse_status-eq s = refl

parse_of_fixed : (c : Status) → is_valid c ≡ true → normalize c ≡ c → parse_of c ≡ c
unfolding parse_of
parse_of_fixed c valid fixed = rw valid fixed

parse_again : (c : Status) → is_valid c ≡ true → normalize c ≡ c → parse_status (to_string c) ≡ c
parse_again c valid fixed =
    rw (parse_status-eq, of_string-to_string c valid) (parse_of_fixed c valid fixed)

-- `ParseStatus` gives one of the twelve constants, one that `Normalize` leaves alone, and parsing
-- the text of its result gives the result again.
pub parse_status_canonical :
    (s : String)
    → let c = parse_status s in
      (is_valid c ≡ true) × (normalize c ≡ c) × (parse_status (to_string c) ≡ c)
parse_status_canonical s =
    let (valid, fixed) = parse_of_again (of_string s) in
    rw parse_status-eq (valid, fixed, parse_again (parse_of (of_string s)) valid fixed)
