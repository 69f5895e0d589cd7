-- ===== src/Tenant/Name.antt =====
-- internal/domain/tenant/dbname.go: the name of a tenant's database.
use Prim.Native.Char.{code}
use Prim.Native.String.{String, ◌++◌}
use Prim.Native.String.append
use duragraph.Base.{
  zero, ℕ, suc, ◌≡◌, refl, Bool, true, false, ◌&&◌, ◌||◌, Option, none, some, arith, if◌then◌else◌,
  leb, ◌==◌, Bool-cases, inl, inr,
}
use mathlib.Core.Bool.{false≢true}
use duragraph.Base.Errors.{GoError, external}

-- What the UUID library answers: the canonical text of the UUID, or the text of its error.
pub data Parsed : Type 0 where
  uuid : String → Parsed
  bad : String → Parsed

-- `strings.ReplaceAll(s, "-", "")`
unfoldable pub strip_dashes : String → String
strip_dashes String.[] = String.[]
strip_dashes (String.◌∷◌ c s) =
    let rest = strip_dashes s in if code c == b'-' then rest else String.◌∷◌ c rest

pub data Named : Type 0 where
  named : String → Named
  unnamed : GoError → Named

unfoldable pub db_name : (String → Parsed) → String → Named
unfolding strip_dashes
db_name parse id = elim (parse id) [
  | bad text ↦ unnamed (external ("invalid tenant id: " ++ text))
  | uuid u ↦ named ("tenant_" ++ strip_dashes u)
]

-- The character class `[a-f0-9]`.
unfoldable pub is_hex : ℕ → Bool
is_hex c = (leb b'a' c && leb c b'f') || (leb b'0' c && leb c b'9')

-- `[a-f0-9]{n}$`
unfoldable pub matches_hex : ℕ → String → Bool
unfolding is_hex
matches_hex n String.[] = n == 0
matches_hex n (String.◌∷◌ c s) = elim n [
  | zero ↦ false
  | suc k ↦ is_hex (code c) && matches_hex k s
]

-- What follows a literal prefix.
unfoldable pub drop_prefix : String → String → Option String
drop_prefix String.[] s = some s
drop_prefix (String.◌∷◌ c p) String.[] = none
drop_prefix (String.◌∷◌ c p) (String.◌∷◌ d s) = if code c == code d then drop_prefix p s else none

-- `ValidateDBName`: whether the name matches `^tenant_[a-f0-9]{32}$`.
unfoldable pub validate_db_name : String → Bool
unfolding drop_prefix matches_hex
validate_db_name s = elim (drop_prefix "tenant_" s) [
  | none ↦ false
  | some rest ↦ matches_hex 32 rest
]

drop_prefix-append : (p s : String) → drop_prefix p (p ++ s) ≡ some s
unfolding drop_prefix
drop_prefix-append String.[] s = rw append.nil refl
drop_prefix-append (String.◌∷◌ c p) s = rw append.cons (ground (arith, drop_prefix-append p s))

-- What the UUID library documents of a canonical text: lower-case hexadecimal digits and dashes,
-- with 32 digits.
abbrev pub is_canonical : ℕ → String → Bool
is_canonical n String.[] = n == 0
is_canonical n (String.◌∷◌ c s) =
    let other = is_canonical n s in
    elim (code c == b'-') [
      | true ↦ other
      | false ↦ elim n [ zero ↦ false | suc k ↦ is_hex (code c) && is_canonical k s ]
    ]

matches_hex-strip_dashes :
    (n : ℕ) (u : String) → is_canonical n u ≡ true → matches_hex n (strip_dashes u) ≡ true
unfolding matches_hex strip_dashes
matches_hex-strip_dashes n String.[] h = h
matches_hex-strip_dashes zero (String.◌∷◌ c s) h = elim (Bool-cases (code c == b'-')) [
  | inl e ↦ rw e (matches_hex-strip_dashes zero s (rw (e, is_canonical) at h))
  | inr e ↦ absurd (false≢true (rw (e, is_canonical) at h))
]
matches_hex-strip_dashes (suc k) (String.◌∷◌ c s) h = elim (Bool-cases (code c == b'-')) [
  | inl e ↦ rw e (matches_hex-strip_dashes (suc k) s (rw (e, is_canonical) at h))
  | inr e ↦
      let both : (is_hex (code c) && is_canonical k s) ≡ true = rw (e, is_canonical) at h in
      rw e (ground (arith, both, matches_hex-strip_dashes k s))
]

validate_prefixed :
    (s : String) → matches_hex 32 s ≡ true → validate_db_name ("tenant_" ++ s) ≡ true
unfolding validate_db_name
validate_prefixed s h = rw (drop_prefix-append "tenant_" s, validate_db_name) h

-- A name that `DBName` derives passes `ValidateDBName`, if the text that the UUID library parses
-- has 32 lower-case hexadecimal digits and only dashes besides.
pub validate-db_name :
    (parse : String → Parsed) (id : String)
    → ((u : String) → parse id ≡ uuid u → is_canonical 32 u ≡ true)
    → (name : String) → db_name parse id ≡ named name
    → validate_db_name name ≡ true
unfolding db_name
validate-db_name parse id canonical name h = go (parse id) refl h
  where
    go :
        (p : Parsed)
        → parse id ≡ p
        → elim p [
          | bad text ↦ unnamed (external ("invalid tenant id: " ++ text))
          | uuid u ↦ named ("tenant_" ++ strip_dashes u)
        ]
          ≡ named name
        → validate_db_name name ≡ true
    go (bad text) e k = cc
    go (uuid u) e k =
        let same : name ≡ "tenant_" ++ strip_dashes u = cc in
        rw same (validate_prefixed (strip_dashes u) (matches_hex-strip_dashes 32 u (canonical u e)))
