-- ===== src/Persistence/Merged.antt =====
-- A run with the changes of another copy of it, as an accepted update leaves it.
use duragraph.Base.{ℕ, suc, ◌+◌, ◌^◌, ◌<◌, ◌≡◌, refl, ◌++◌, arith, inc_int}
use duragraph.Run.{Run, increment_version, clear_events}
use duragraph.Run.Commands.{bump, execute}
use duragraph.Run.Lifecycle.{IsConsistent}
use duragraph.Run.History.{IsReplayed, execute-IsReplayed}
use duragraph.Run.RoundTrip.{IsFilled}
use duragraph.Persistence.Copies.{prefixed, merged}

pub merged-IsConsistent : (r a : Run) → IsConsistent a → IsConsistent (merged r a)
unfolding increment_version
merged-IsConsistent r a c = record {
  stored = c.stored;
  finished = c.finished;
  output_done = c.output_done;
  error_failed = c.error_failed;
}

pub merged-IsReplayed : (r a : Run) → IsReplayed (prefixed r.events a) → IsReplayed (merged r a)
unfolding execute
merged-IsReplayed r a h = execute-IsReplayed bump (prefixed r.events a) h

pub version-merged :
    (r a : Run) (k : ℕ)
    → a.version ≡ r.version
    → r.version + suc k < 2 ^ 64
    → (merged r a).version ≡ r.version + 1
unfolding increment_version inc_int
version-merged r a k e b = omega arith

pub merged-IsFilled : (r a : Run) → IsFilled a → IsFilled (merged r a)
unfolding increment_version
merged-IsFilled r a f = f

pub id-merged : (r a : Run) → (merged r a).id ≡ a.id
unfolding increment_version
id-merged r a = refl

pub events-merged : (r a : Run) → (merged r a).events ≡ r.events ++ a.events
unfolding increment_version
events-merged r a = refl

pub cleared-merged : (r a : Run) → clear_events (merged r a) ≡ clear_events (increment_version a)
unfolding increment_version clear_events
cleared-merged r a = refl
