-- ===== src/Interrupt.antt =====
-- internal/domain/humanloop/interrupt.go and events.go: the interrupt aggregate, with the row and
-- the statements of internal/infrastructure/persistence/postgres/interrupt_repository.go. A JSON
-- column holds the value itself, and a list of tool calls that is nil is empty.
pub mod Submission
pub mod Phantom
pub mod Refusals
mod Tests
use duragraph.Base.{
  ℕ, zero, suc, Bool, true, false, not, ◌&&◌, Option, none, some, List, [], ◌∷◌, ◌++◌, String,
  if◌then◌else◌, leb,
}
use duragraph.Base.Text.{◌=ₛ◌}
use duragraph.Base.Value.{GoMap, or_empty}
use duragraph.Base.Errors.{DomainError, Result, ok, err, invalid_input, invalid_state, not_found}

pub data Reason : Type 0 where
  tool_call approval_required input_needed : Reason
  other : String → Reason

unfoldable pub reason_to_string : Reason → String
reason_to_string tool_call = "tool_call"
reason_to_string approval_required = "approval_required"
reason_to_string input_needed = "input_needed"
reason_to_string (other s) = s

-- The conversion `InterruptReason(reason)`.
unfoldable pub reason_of_string : String → Reason
reason_of_string s =
    if s =ₛ "tool_call"
    then tool_call
    else if s =ₛ "approval_required"
    then approval_required
    else if s =ₛ "input_needed"
    then input_needed
    else other s

-- The fields in the order of the Go structs.
pub data Event : Type 0 where
  interrupt_created : String → String → String → String → GoMap → List GoMap → ℕ → Event
  interrupt_resolved : String → String → List GoMap → ℕ → Event

pub record Interrupt : Type 0 where
  pub id : String
  pub run_id : String
  pub node_id : String
  pub reason : Reason
  pub state : GoMap
  pub tool_calls : List GoMap
  pub resolved : Bool
  pub resolved_at : Option ℕ
  pub created_at : ℕ
  pub events : List Event

unfoldable pub record_event : Interrupt → Event → Interrupt
record_event i e = record i { events = i.events ++ e ∷ [] }

unfoldable pub new_interrupt :
    ℕ → String → String → String → Reason → GoMap → List GoMap → Result Interrupt
unfolding record_event reason_to_string or_empty
new_interrupt now id run node reason state calls =
    let i : Interrupt = record {
      id = id;
      run_id = run;
      node_id = node;
      reason = reason;
      state = or_empty state;
      tool_calls = calls;
      resolved = false;
      resolved_at = none;
      created_at = now;
      events = [];
    } in
    let created =
      interrupt_created id run node (reason_to_string reason) (or_empty state) calls now in
    if run =ₛ ""
    then err (invalid_input "run_id" "run_id is required")
    else if node =ₛ ""
    then err (invalid_input "node_id" "node_id is required")
    else ok (record_event i created)

unfoldable pub resolve : ℕ → List GoMap → Interrupt → Interrupt × Option DomainError
unfolding record_event
resolve now outputs i =
    let i' = record i { resolved = true; resolved_at = some now } in
    if i.resolved
    then (i, some (invalid_state "resolved" "resolve"))
    else (record_event i' (interrupt_resolved i.id i.run_id outputs now), none)

unfoldable pub clear_events : Interrupt → Interrupt
clear_events i = record i { events = [] }

pub record Row : Type 0 where
  pub id : String
  pub run_id : String
  pub node_id : String
  pub reason : String
  pub state : GoMap
  pub tool_calls : List GoMap
  pub resolved : Bool
  pub resolved_at : Option ℕ
  pub created_at : ℕ

-- The rows, and the events of interrupts with the id of their stream's aggregate.
pub record Store : Type 0 where
  pub rows : List Row
  pub log : List (String × Event)

abbrev pub tagged : String → List Event → List (String × Event)
tagged id [] = []
tagged id (e ∷ es) = (id, e) ∷ tagged id es

unfoldable pub has_row : String → List Row → Bool
has_row id [] = false
has_row id (r ∷ rs) = if r.id =ₛ id then true else has_row id rs

unfoldable pub row_of : Interrupt → Row
unfolding reason_to_string
row_of i = record {
  id = i.id;
  run_id = i.run_id;
  node_id = i.node_id;
  reason = reason_to_string i.reason;
  state = i.state;
  tool_calls = i.tool_calls;
  resolved = i.resolved;
  resolved_at = i.resolved_at;
  created_at = i.created_at;
}

-- `Save`; the answer is whether the key was free.
unfoldable pub save : Interrupt → Store → Store × Bool
unfolding row_of has_row
save i s =
    let s' : Store = record {
      rows = s.rows ++ row_of i ∷ [];
      log = s.log ++ tagged i.id i.events;
    } in
    if has_row i.id s.rows then (s, false) else (s', true)

-- The columns that `Update` writes, in the rows of the id.
unfoldable pub update_rows : Interrupt → List Row → List Row
update_rows i [] = []
update_rows i (r ∷ rs) =
    let r' = record r {
      state = i.state;
      tool_calls = i.tool_calls;
      resolved = i.resolved;
      resolved_at = i.resolved_at;
    } in
    (if r.id =ₛ i.id then r' else r) ∷ update_rows i rs

-- `Update`: the number of rows is not read.
unfoldable pub update : Interrupt → Store → Store
unfolding update_rows
update i s = record { rows = update_rows i s.rows; log = s.log ++ tagged i.id i.events }

-- `WHERE run_id = $1 AND resolved = FALSE ORDER BY created_at ASC`
unfoldable pub insert_oldest : Row → List Row → List Row
insert_oldest r [] = r ∷ []
insert_oldest r (s ∷ rs) =
    let rest = insert_oldest r rs in if leb r.created_at s.created_at then r ∷ s ∷ rs else s ∷ rest

unfoldable pub unresolved_rows : String → List Row → List Row
unresolved_rows run [] = []
unresolved_rows run (r ∷ rs) =
    let rest = unresolved_rows run rs in
    if r.run_id =ₛ run && not r.resolved then insert_oldest r rest else rest

-- What is made of a row: a call of `NewInterrupt`, with a new id, whose error is dropped, so that
-- the pointer is nil then.
unfoldable pub reconstruct : ℕ → String → Row → Option Interrupt
unfolding reason_of_string
reconstruct now id r =
    elim (new_interrupt now id r.run_id r.node_id (reason_of_string r.reason) r.state
      r.tool_calls) [ err e ↦ none | ok i ↦ some i ]

-- `fresh n` is the id that the n-th call of `NewInterrupt` draws.
unfoldable pub reconstruct_all : ℕ → (ℕ → String) → ℕ → List Row → List (Option Interrupt)
reconstruct_all now fresh n [] = []
reconstruct_all now fresh n (r ∷ rs) =
    reconstruct now (fresh n) r ∷ reconstruct_all now fresh (suc n) rs

unfoldable pub find_unresolved_by_run_id :
    ℕ → (ℕ → String) → String → Store → List (Option Interrupt)
find_unresolved_by_run_id now fresh run s = reconstruct_all now fresh 0 (unresolved_rows run s.rows)

unfoldable pub row_with : String → List Row → Option Row
row_with id [] = none
row_with id (r ∷ rs) = if r.id =ₛ id then some r else row_with id rs

-- `FindByID` makes a new interrupt of the row, too.
unfoldable pub find_by_id : ℕ → String → String → Store → Result Interrupt
unfolding row_with new_interrupt reason_of_string
find_by_id now fresh id s = elim (row_with id s.rows) [
  | none ↦ err (not_found "interrupt" id)
  | some r ↦
      new_interrupt now fresh r.run_id r.node_id (reason_of_string r.reason) r.state r.tool_calls
]

-- `WHERE run_id = $1 ORDER BY created_at DESC`
unfoldable pub insert_latest : Row → List Row → List Row
insert_latest r [] = r ∷ []
insert_latest r (s ∷ rs) =
    let rest = insert_latest r rs in if leb s.created_at r.created_at then r ∷ s ∷ rs else s ∷ rest

unfoldable pub rows_of : String → List Row → List Row
unfolding insert_latest
rows_of run [] = []
rows_of run (r ∷ rs) =
    let rest = rows_of run rs in if r.run_id =ₛ run then insert_latest r rest else rest

unfoldable pub find_by_run_id : ℕ → (ℕ → String) → String → Store → List (Option Interrupt)
unfolding rows_of reconstruct_all
find_by_run_id now fresh run s = reconstruct_all now fresh 0 (rows_of run s.rows)

unfoldable pub rows_without : String → List Row → List Row
rows_without id [] = []
rows_without id (r ∷ rs) = let rest = rows_without id rs in if r.id =ₛ id then rest else r ∷ rest

unfoldable pub delete : String → Store → Store
unfolding rows_without
delete id s = record s { rows = rows_without id s.rows }
