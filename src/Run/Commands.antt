-- ===== src/Run/Commands.antt =====
-- The methods of the run aggregate as commands, and a history of them.
use duragraph.Base.{ℕ, none, List, [], ◌∷◌, String}
use duragraph.Base.Value.{GoMap}
use duragraph.Run.{
  Run, Outcome, increment_version, assign_to_worker, worker_heartbeat, increment_retry, start,
  complete, fail, cancel, require_action, resume,
}

-- One constructor for each mutating method; the time of the call is the last number.
pub data Command : Type 0 where
  begin : ℕ → Command
  finish : GoMap → ℕ → Command
  abort : String → ℕ → Command
  stop : String → ℕ → Command
  pause : String → String → List GoMap → ℕ → Command
  continue : String → List GoMap → ℕ → Command
  assign : String → ℕ → ℕ → Command
  beat : ℕ → ℕ → Command
  retry : ℕ → Command
  bump : Command

unfoldable pub execute : Command → Run → Outcome
execute (begin t) r = start t r
execute (finish out t) r = complete t out r
execute (abort message t) r = fail t message r
execute (stop reason t) r = cancel t reason r
execute (pause interrupt reason calls t) r = require_action t interrupt reason calls r
execute (continue interrupt outputs t) r = resume t interrupt outputs r
execute (assign worker d t) r = (assign_to_worker t worker d r, none)
execute (beat d t) r = (worker_heartbeat t d r, none)
execute (retry t) r = (increment_retry t r, none)
execute bump r = (increment_version r, none)

-- A history: what a command answers does not stop the next one.
unfoldable pub execute_all : List Command → Run → Run
execute_all [] r = r
execute_all (c ∷ cs) r = execute_all cs (execute c r).0
