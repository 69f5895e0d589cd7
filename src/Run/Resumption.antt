-- ===== src/Run/Resumption.antt =====
-- Which commands a run accepts after which: `Start` and `Resume` share their guard.
use duragraph.Base.{ℕ, ◌≡◌, ◌≢◌, ◌↔◌, none, List, String, arith}
use duragraph.Base.Value.{GoMap}
use duragraph.Run.{Run, start, fail, resume, require_action}
use duragraph.Run.Statuses.{queued, in_progress, can_transition_to}

-- `Resume` is accepted in exactly the statuses in which `Start` is: also on a queued run, which
-- then is in progress and has no start time if it had none.
pub resume_accepts_as_start :
    (t u : ℕ) (i : String) (os : List GoMap) (r : Run)
    → ((resume t i os r).1 ≡ none ↔ (start u r).1 ≡ none)
      × (r.status ≡ queued
          → ((resume t i os r).0.status ≡ in_progress)
            × ((resume t i os r).0.started_at ≡ r.started_at))
unfolding resume start can_transition_to
resume_accepts_as_start t u i os r = ground arith

-- Whether it was accepted or not, after `Resume` no `Start` is accepted: a run that was resumed
-- cannot be started again before it requires action once more.
pub start-resume_refused :
    (t u : ℕ) (i : String) (os : List GoMap) (r : Run)
    → (resume t i os r).1 ≡ none
    → ((start u (resume t i os r).0).1 ≢ none)
      × ((start u (resume t i os r).0).0 ≡ (resume t i os r).0)
unfolding resume start can_transition_to
start-resume_refused t u i os r h = ground arith

-- A pause and a resumption bring an in-progress run back to where it was, with two more events
-- and a new time of update; and the pause itself is accepted.
pub resume-require_action :
    (t u : ℕ) (i reason : String) (calls outputs : List GoMap) (r : Run)
    → r.status ≡ in_progress
    → let (paused, e) = require_action t i reason calls r in
      let (r', e') = resume u i outputs paused in
      (e ≡ none) × (e' ≡ none) × (record r' { updated_at = r.updated_at; events = r.events } ≡ r)
unfolding resume require_action can_transition_to
resume-require_action t u i reason calls outputs r h = ground arith

-- `Fail` is refused on a queued run, which stays queued.
pub fail_queued_refused :
    (t : ℕ) (m : String) (r : Run)
    → r.status ≡ queued
    → ((fail t m r).1 ≢ none) × ((fail t m r).0 ≡ r)
unfolding fail can_transition_to
fail_queued_refused t m r h = ground arith
