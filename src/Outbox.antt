-- ===== src/Outbox.antt =====
-- internal/infrastructure/persistence/postgres/outbox.go and internal/infrastructure/messaging/
-- outbox_relay.go: the table of events that are to be published, and the relay that publishes them.
-- A time is in nanoseconds, and one round of the relay has one time.
pub mod Delays
pub mod Relay
pub mod Order
pub mod Batches
pub mod Rounds
mod Tests
use duragraph.Base.{
  ℕ, zero, suc, ◌+◌, ◌*◌, ◌^◌, ◌%◌, Bool, true, false, not, ◌&&◌, ◌||◌, Option, none, some, List,
  [], ◌∷◌, String, if◌then◌else◌, ◌==◌, leb, ltb,
}
use duragraph.Base.Value.{GoMap}

pub record Message : Type 0 where
  pub id : ℕ
  pub event_id : String
  pub aggregate_type : String
  pub aggregate_id : String
  pub event_type : String
  pub payload : GoMap
  pub metadata : GoMap
  pub created_at : ℕ
  pub published : Bool
  pub published_at : Option ℕ
  pub attempts : ℕ
  pub last_error : Option String
  pub next_retry_at : Option ℕ

unfoldable pub is_due : ℕ → Option ℕ → Bool
is_due now none = true
is_due now (some at) = leb at now

-- `WHERE NOT published AND (next_retry_at IS NULL OR next_retry_at <= NOW())`
unfoldable pub is_ready : ℕ → Message → Bool
unfolding is_due
is_ready now m = not m.published && is_due now m.next_retry_at

-- `ORDER BY created_at ASC`
unfoldable pub insert_by_age : Message → List Message → List Message
insert_by_age m [] = m ∷ []
insert_by_age m (n ∷ ns) =
    let rest = insert_by_age m ns in if leb m.created_at n.created_at then m ∷ n ∷ ns else n ∷ rest

unfoldable pub ready_by_age : ℕ → List Message → List Message
ready_by_age now [] = []
ready_by_age now (m ∷ ms) =
    let rest = ready_by_age now ms in if is_ready now m then insert_by_age m rest else rest

-- `LIMIT $1`
unfoldable pub limit_to : ℕ → List Message → List Message
limit_to zero ms = []
limit_to (suc n) [] = []
limit_to (suc n) (m ∷ ms) = m ∷ limit_to n ms

unfoldable pub get_unpublished : ℕ → ℕ → List Message → List Message
get_unpublished now limit ms = limit_to limit (ready_by_age now ms)

-- `UPDATE outbox ... WHERE id = $1`
unfoldable pub update_row : ℕ → (Message → Message) → List Message → List Message
update_row id f [] = []
update_row id f (m ∷ ms) = (if m.id == id then f m else m) ∷ update_row id f ms

abbrev pub published_now : ℕ → Message → Message
published_now now m = record m { published = true; published_at = some now }

unfoldable pub mark_as_published : ℕ → ℕ → List Message → List Message
mark_as_published now id ms = update_row id (published_now now) ms

abbrev pub minute : ℕ
minute = 60000000000

-- `1 << attempts` as a 64-bit pattern, at most 60 as a signed number.
unfoldable pub backoff_minutes : ℕ → ℕ
backoff_minutes attempts =
    let shifted = 2 ^ attempts % 2 ^ 64 in
    if ltb 60 shifted && ltb shifted (2 ^ 63) then 60 else shifted

-- `time.Duration(backoffMinutes) * time.Minute`, as a 64-bit pattern.
unfoldable pub retry_delay : ℕ → ℕ
unfolding backoff_minutes
retry_delay attempts = backoff_minutes attempts * minute % 2 ^ 64

unfoldable pub failed_now : ℕ → String → Message → Message
failed_now now error m = record m {
  attempts = m.attempts + 1;
  last_error = some error;
  next_retry_at = some (now + retry_delay m.attempts);
}

unfoldable pub mark_as_failed : ℕ → ℕ → String → List Message → List Message
mark_as_failed now id error ms = update_row id (failed_now now error) ms

-- `Cleanup`: the rows that are published and older than the retention are deleted. `limit` is the
-- time before which a row is old.
unfoldable pub is_old : ℕ → Message → Bool
is_old limit m = m.published && (elim m.published_at [ none ↦ false | some at ↦ ltb at limit ])

unfoldable pub cleanup : ℕ → List Message → List Message
cleanup limit [] = []
cleanup limit (m ∷ ms) = let rest = cleanup limit ms in if is_old limit m then rest else m ∷ rest

-- What `processOutbox` does with the answer of the publisher to the message `id`.
unfoldable pub recorded : ℕ → ℕ → Option String → List Message → List Message
recorded now id (some e) ms = mark_as_failed now id e ms
recorded now id none ms = mark_as_published now id ms

-- One message of `processOutbox`. `publish` is the NATS publisher, which gives an error or none.
unfoldable pub process : (Message → Option String) → ℕ → Message → List Message → List Message
unfolding recorded
process publish now m ms = recorded now m.id (publish m) ms

unfoldable pub process_all :
    (Message → Option String) → ℕ → List Message → List Message → List Message
process_all publish now [] ms = ms
process_all publish now (b ∷ batch) ms = process_all publish now batch (process publish now b ms)

unfoldable pub process_outbox : (Message → Option String) → ℕ → ℕ → List Message → List Message
process_outbox publish now batch_size ms =
    process_all publish now (get_unpublished now batch_size ms) ms
