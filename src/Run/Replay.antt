-- ===== src/Run/Replay.antt =====
-- internal/domain/run/run.go, `Reconstruct` and `applyEvent`: a run from its event log.
use duragraph.Base.{none, some, List, [], ◌∷◌}
use duragraph.Base.Value.{or_empty}
use duragraph.Base.Errors.{Result, ok, err, invalid_input}
use duragraph.Run.{Run, Outcome, zero_run, or_reject}
use duragraph.Run.Statuses.{queued, in_progress, requires_action, completed, failed, cancelled}
use duragraph.Run.Events.{
  Event, created, started, run_completed, run_failed, run_cancelled, run_requires_action,
  run_resumed, foreign,
}

-- The cases of the type switch.
unfoldable pub applied : Event → Run → Run
unfolding or_empty or_reject
applied (created e) r = record r {
  id = e.run_id;
  thread_id = e.thread_id;
  assistant_id = e.assistant_id;
  input = e.input;
  config = or_empty e.config;
  status = queued;
  created_at = e.occurred_at;
  updated_at = e.occurred_at;
  metadata = or_empty e.metadata;
  multitask_strategy = or_reject e.multitask_strategy;
}
applied (started id t) r = record r { status = in_progress; started_at = some t; updated_at = t }
applied (run_completed id out t) r = record r {
  status = completed;
  output = out;
  completed_at = some t;
  updated_at = t;
}
applied (run_failed id message t) r = record r {
  status = failed;
  error_message = message;
  completed_at = some t;
  updated_at = t;
}
applied (run_cancelled id reason t) r = record r {
  status = cancelled;
  completed_at = some t;
  updated_at = t;
}
applied (run_requires_action id interrupt reason calls t) r = record r {
  status = requires_action;
  updated_at = t;
}
applied (run_resumed id interrupt outputs t) r = record r { status = in_progress; updated_at = t }
applied foreign r = r

-- It never returns an error.
abbrev pub apply_event : Event → Run → Outcome
apply_event e r = (applied e r, none)

unfoldable pub apply_events : List Event → Run → Result Run
apply_events [] r = ok r
apply_events (e ∷ es) r =
    let (r', failure) = apply_event e r in
    elim failure [ some x ↦ err x | none ↦ apply_events es r' ]

unfoldable pub reconstruct : List Event → Result Run
unfolding apply_events
reconstruct [] = err (invalid_input "events" "at least one event is required")
reconstruct (e ∷ es) = apply_events (e ∷ es) zero_run
