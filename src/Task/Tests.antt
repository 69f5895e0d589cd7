-- ===== src/Task/Tests.antt =====
-- A table of three tasks.
use duragraph.Base.{ℕ, ◌+◌, ◌≤◌, ◌≡◌, refl, none, List, [], ◌∷◌, String, All}
use duragraph.Task.{
  Task, pending, Table, claim, claimed_by, is_claimable, is_claimed, ids, has_id, claim_ids,
  limit_to, by_age, insert_by_age, create, retry_or_fail, retried,
}
use duragraph.Task.Claiming.{Claims}
use duragraph.Task.Claims.{Call, call, creates, claims, completes, retries, calls, hand_outs, empty}
use duragraph.Task.HandOuts.{hand_outs-le}

abbrev task : ℕ → String → ℕ → Task
task id graph at = record {
  id = id;
  run_id = "r1";
  worker_id = "";
  status = pending;
  graph_id = graph;
  thread_id = "thread";
  assistant_id = "assistant";
  input = none;
  config = none;
  created_at = at;
  claimed_at = none;
  completed_at = none;
  lease_expires_at = none;
  retry_count = 0;
  max_retries = 3;
  error_message = "";
}

abbrev table : Table
table = record { rows = task 1 "g" 9 ∷ task 2 "h" 3 ∷ task 3 "g" 5 ∷ []; next_id = 4 }

-- The older of the two tasks of the graph is handed out.
claim_oldest : ids (claim 10 "w" ("g" ∷ []) 120 1 [] table).1 ≡ 3 ∷ []
unfolding claim has_id claim_ids limit_to by_age is_claimable insert_by_age claimed_by
claim_oldest = refl

-- A task that is claimed, lost, claimed again and completed.
abbrev history : List Call
history =
    creates (task 7 "g" 0) 1
    ∷ claims "w" ("g" ∷ []) 120 5 [] 2
    ∷ retries 1 130
    ∷ claims "v" ("g" ∷ []) 120 5 [] 140
    ∷ completes 1 150
    ∷ []

handed_out_twice : hand_outs 1 history empty ≡ 2
unfolding hand_outs has_id call claim create claim_ids limit_to by_age is_claimable insert_by_age
    claimed_by retry_or_fail is_claimed retried
handed_out_twice = refl

hand_outs-le_example :
    All (λ t. hand_outs t.id history empty ≤ t.max_retries + 1) (calls history empty).rows
hand_outs-le_example = hand_outs-le history
