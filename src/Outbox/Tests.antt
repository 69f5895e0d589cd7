-- ===== src/Outbox/Tests.antt =====
-- A table of three rows, and a publisher that refuses one kind of event.
use duragraph.Base.{
  ℕ, ◌≤◌, ◌≡◌, Bool, true, false, Option, none, some, List, [], ◌∷◌, String, All, Pairwise, length,
  if◌then◌else◌, ◌*◌, ◌^◌, ltb,
}
use duragraph.Base.Text.{◌=ₛ◌}
use mathlib.Core.List.{Memᴰ}
use duragraph.Outbox.{Message, get_unpublished, process_outbox, retry_delay, minute}
use duragraph.Outbox.Rounds.{IsDue, Served, Relays, process_outbox_lem}
use duragraph.Outbox.Delays.{retry_delay_lem}

abbrev message : ℕ → String → Bool → Message
message id kind published = record {
  id = id;
  event_id = "e";
  aggregate_type = "run";
  aggregate_id = "r1";
  event_type = kind;
  payload = none;
  metadata = none;
  created_at = id;
  published = published;
  published_at = none;
  attempts = 0;
  last_error = none;
  next_retry_at = none;
}

abbrev rows : List Message
rows =
    message 1 "run.created" true ∷ message 2 "run.started" false ∷ message 3 "run.failed" false ∷ []

abbrev publish : Message → Option String
publish m = if m.event_type =ₛ "run.failed" then some "no stream" else none

process_outbox_lem_example :
    let batch = get_unpublished 9 5 rows in
    (length batch ≤ 5)
    × All (λ m. Memᴰ m rows × IsDue 9 m) batch
    × All (Served 9 5 batch) rows
    × Pairwise (Relays publish 9 batch) rows (process_outbox publish 9 5 rows)
process_outbox_lem_example =
    process_outbox_lem publish 9 5 rows (((λ e. cc), ((λ e. cc), tt)), (((λ e. cc), tt), (tt, tt)))

retry_delay_lem_example :
    retry_delay 70 ≡ (if ltb 70 63 then (if ltb 60 (2 ^ 70) then 60 else 2 ^ 70) * minute else 0)
retry_delay_lem_example = retry_delay_lem 70
