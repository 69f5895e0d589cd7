-- ===== src/Base.antt =====
-- What every component shares: the library names, passed on, the tests and lists of the
-- children, texts, dictionaries, and the machine integer of Go.
mod Tests
mod Lists
pub mod Text
pub mod Dict
pub mod Value
pub mod Errors
pub use Tests.*
pub use Lists.*
pub use Prim.Native.Nat.{ℕ, zero, suc, ◌+◌, ◌-◌, ◌*◌, ◌%◌, ◌^◌, ◌≤◌, ◌<◌}
pub use Prim.Native.String.{String}
pub use mathlib.Core.Path.{◌≡◌, refl, sym, ap, ◌∙◌}
pub use mathlib.Core.Logic.{◌≢◌, ◌↔◌, ◌⊎◌, inl, inr}
pub use mathlib.Core.Bool.{Bool, true, false, not, ◌&&◌, ◌||◌}
pub use mathlib.Core.Option.{Option, none, some}
pub use mathlib.Core.List.{List, [], ◌∷◌, ◌++◌, map}
pub use native.Mathlib.Omega.{arith}

-- `n++` on a Go `int`, which is kept as its 64-bit pattern.
unfoldable pub inc_int : ℕ → ℕ
inc_int n = (n + 1) % 2 ^ 64
