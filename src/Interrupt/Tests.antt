-- ===== src/Interrupt/Tests.antt =====
-- A run that waits for tool outputs, with one unresolved interrupt.
use duragraph.Base.{ℕ, ◌≡◌, refl, false, none, some, [], ◌∷◌, ◌++◌, String}
use duragraph.Base.Dict.{lookup}
use duragraph.Base.Errors.{not_found}
use duragraph.Run.Load.{RunData}
use duragraph.Run.Events.{run_resumed}
use duragraph.Persistence.{find_by_id, logged_events}
use duragraph.Persistence.Loaded.{IsStored}
use duragraph.Interrupt
use duragraph.Interrupt.{Row, has_row, unresolved_rows}
use duragraph.Interrupt.Submission.{World, done, refused, submit_tool_outputs}
use duragraph.Interrupt.Phantom.{submission_resolves_nothing}
use duragraph.Interrupt.Refusals.{refused_submission_unchanged}

abbrev run_row : RunData
run_row = record {
  id = "r1";
  thread_id = "thread";
  assistant_id = "assistant";
  status = "requires_action";
  input = none;
  output = none;
  config = some [];
  error_message = "";
  metadata = some [];
  multitask_strategy = "reject";
  created_at = 1;
  started_at = some 2;
  completed_at = none;
  updated_at = 2;
  worker_id = "";
  retry_count = 0;
  lease_expires_at = none;
  last_heartbeat_at = none;
  version = 2;
  lease_epoch = 0;
}

abbrev row : Row
row = record {
  id = "i1";
  run_id = "r1";
  node_id = "tool";
  reason = "tool_call";
  state = some [];
  tool_calls = [];
  resolved = false;
  resolved_at = none;
  created_at = 3;
}

abbrev world : World
world = record {
  db = record { runs = ("r1", run_row) ∷ []; streams = []; events = []; outbox = [] };
  interrupts = record { rows = row ∷ []; log = [] };
}

abbrev ids_of : ℕ → String
ids_of i = "fresh"

stored_row : IsStored "r1" run_row world.db
unfolding lookup
stored_row = record { found = refl; named = refl; positive = λ e. cc }

one_row : unresolved_rows "r1" world.interrupts.rows ≡ row ∷ []
unfolding unresolved_rows Interrupt.insert_oldest
one_row = refl

free : has_row "fresh" world.interrupts.rows ≡ false
unfolding has_row
free = refl

submission_resolves_nothing_example :
    let (w', a) = submit_tool_outputs ids_of "s" 10 ids_of "r1" [] world in
    (a ≡ done)
    × (w'.interrupts.rows ≡ world.interrupts.rows)
    × ((d' : RunData) × (lookup "r1" w'.db.runs ≡ some d') × (d'.status ≡ "in_progress"))
    × (logged_events "r1" w'.db.events
        ≡ logged_events "r1" world.db.events ++ run_resumed "r1" "fresh" [] 10 ∷ [])
submission_resolves_nothing_example =
    submission_resolves_nothing ids_of "s" 10 ids_of "r1" [] run_row row [] world stored_row refl
      one_row refl refl free

missing :
    (submit_tool_outputs ids_of "s" 10 ids_of "r2" [] world).1 ≡ refused (not_found "run" "r2")
unfolding submit_tool_outputs find_by_id lookup
missing = refl

refused_submission_unchanged_example :
    (submit_tool_outputs ids_of "s" 10 ids_of "r2" [] world).0 ≡ world
refused_submission_unchanged_example =
    refused_submission_unchanged ids_of "s" 10 ids_of "r2" [] world (not_found "run" "r2") missing
