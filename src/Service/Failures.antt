-- ===== src/Service/Failures.antt =====
-- Reports and sweeps that fail: what they change.
use duragraph.Base.{Option, none, some}
use duragraph.Run.{Run}
use duragraph.Service.{ServiceError, not_loaded, refused, not_stored}

-- An answer that refuses the report, other than the error of the update.
abbrev pub IsRefusal : Option ServiceError → Type 0
IsRefusal none = ⊥
IsRefusal (some (not_loaded e)) = Unit
IsRefusal (some (refused e)) = Unit
IsRefusal (some (not_stored e)) = ⊥
