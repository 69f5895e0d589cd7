-- ===== src/Execution/Compare.antt =====
-- Go's `==` on two `interface{}` values, and the type assertions that the engine makes.
use duragraph.Base.{
  ℕ, ◌%◌, ◌^◌, Bool, true, false, not, ◌&&◌, ◌||◌, Option, none, some, List, [], ◌∷◌, String, ltb,
  ◌==◌,
}
use duragraph.Base.Text.{◌=ₛ◌}
use duragraph.Base.Value.{
  Value, null, bool, float, text, texts, array, object, Items, nil, cons, Fields, end, field, Obj,
  GoMap,
}

-- On the patterns of two float64: a NaN equals nothing, and the two zeros are equal.
is_nan : ℕ → Bool
is_nan a = ltb 0x7ff0000000000000 (a % 2 ^ 63)

unfoldable pub float_eq : ℕ → ℕ → Bool
unfolding is_nan
float_eq a b = not (is_nan a) && not (is_nan b) && (a == b || (a % 2 ^ 63 == 0 && b % 2 ^ 63 == 0))

abbrev bool_eq : Bool → Bool → Bool
bool_eq true b = b
bool_eq false b = not b

-- `none` is the run-time panic of comparing two maps, or two slices, of one type.
unfoldable pub iface_eq : Value → Value → Option Bool
unfolding float_eq
iface_eq null null = some true
iface_eq (bool a) (bool b) = some (bool_eq a b)
iface_eq (float a) (float b) = some (float_eq a b)
iface_eq (text a) (text b) = some (a =ₛ b)
iface_eq (texts a) (texts b) = none
iface_eq (array a) (array b) = none
iface_eq (object a) (object b) = none
iface_eq _ _ = some false

-- `v.(string)`, with the zero value where the assertion fails.
abbrev pub as_string : Value → String
as_string (text s) = s
as_string _ = ""

-- `b, ok := v.(bool); ok && b`
abbrev pub as_true : Value → Bool
as_true (bool b) = b
as_true _ = false

abbrev pub to_obj : Fields → Obj
to_obj end = []
to_obj (field k v fs) = (k, v) ∷ to_obj fs

abbrev pub of_obj : Obj → Fields
of_obj [] = end
of_obj ((k, v) ∷ m) = field k v (of_obj m)

-- `v.(map[string]interface{})`, nil where the assertion fails.
abbrev pub as_map : Value → GoMap
as_map (object fs) = some (to_obj fs)
as_map _ = none

abbrev pub strings_of : Items → List String
strings_of nil = []
strings_of (cons (text s) xs) = s ∷ strings_of xs
strings_of (cons _ xs) = strings_of xs

-- The strings of a `[]interface{}`; nothing for any other type.
abbrev pub as_strings : Value → List String
as_strings (array xs) = strings_of xs
as_strings _ = []
