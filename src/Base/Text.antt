-- ===== src/Base/Text.antt =====
-- Texts are native strings; the code only compares and joins them.
use Prim.Native.String.{String, ◌++◌}
use mathlib.Core.Path.{◌≡◌, refl}
use mathlib.Core.Logic.{◌↔◌}
use mathlib.Core.Bool.{Bool, true, false, ◌||◌}
use mathlib.Core.List.{List, [], ◌∷◌}
use text.Mathlib.Text.{◌==◌}
use text.Mathlib.TextEquality as Equality

infix 50 ◌=ₛ◌
abbrev pub ◌=ₛ◌ : String → String → Bool
s =ₛ t = s == t

pub =ₛ_iff : (s t : String) → ((s =ₛ t) ≡ true) ↔ (s ≡ t)
=ₛ_iff s t = Equality.eq_iff s t

pub =ₛ_refl : (s : String) → (s =ₛ s) ≡ true
=ₛ_refl s = (Equality.eq_iff s s).1 refl

-- `containsString`, and membership in a list of names.
unfoldable pub contains : List String → String → Bool
contains [] s = false
contains (x ∷ xs) s = x =ₛ s || contains xs s

-- `s + t` on strings.
abbrev pub concat : String → String → String
concat s t = s ++ t
