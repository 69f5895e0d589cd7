-- ===== src/Persistence/Sessions.antt =====
-- Clients that work on one run at the same time: each loads its own copy, calls methods on it, and
-- updates the row. As the services do, a client whose update fails gives its copy up.
use duragraph.Base.{ℕ, ◌≡◌, Bool, true, false, Option, none, some, List, [], ◌∷◌, String}
use duragraph.Base.Dict.{Dict, lookup, insert, remove}
use duragraph.Base.Errors.{Result, ok, err}
use duragraph.Run.{Run}
use duragraph.Run.Commands.{Command, bump, execute}
use duragraph.Persistence.{Db, Failure, find_by_id, update}

-- The methods of the run that clients call; `IncrementVersion` is left to `Update`.
abbrev pub is_method : Command → Bool
is_method bump = false
is_method _ = true

-- Which client, by its name. A commit has the ids that it draws.
pub data Step : Type 0 where
  load : String → Step
  change : String → (c : Command) → is_method c ≡ true → Step
  commit : String → (ℕ → String) → String → Step

pub record System : Type 0 where
  pub db : Db
  pub copies : Dict Run

abbrev pub loaded : String → Result Run → System → System
loaded client (ok r) s = record s { copies = insert client r s.copies }
loaded client (err e) s = s

abbrev pub changed : String → Command → Option Run → System → System
changed client c none s = s
changed client c (some r) s = record s { copies = insert client (execute c r).0 s.copies }

-- After an update: the copy is kept if there was no error.
abbrev pub committed : String → Db × Run × Option Failure → System → System
committed client (db, r, none) s = record { db = db; copies = insert client r s.copies }
committed client (db, r, some e) s = record { db = db; copies = remove client s.copies }

abbrev pub commit_copy : String → (ℕ → String) → String → Option Run → System → System
commit_copy client uuid sid none s = s
commit_copy client uuid sid (some r) s = committed client (update uuid sid r s.db) s

unfoldable pub step : String → Step → System → System
step id (load client) s = loaded client (find_by_id id s.db) s
step id (change client c m) s = changed client c (lookup client s.copies) s
step id (commit client uuid sid) s = commit_copy client uuid sid (lookup client s.copies) s

unfoldable pub steps : String → List Step → System → System
steps id [] s = s
steps id (x ∷ xs) s = steps id xs (step id x s)
