-- ===== src/Task.antt =====
-- internal/infrastructure/persistence/postgres/task_assignment_repository.go: the table of task
-- assignments, each statement as one step. A NULL worker or error text, which `scanTask` reads as
-- the empty text, is that.
pub mod Selection
pub mod Order
pub mod Filling
pub mod Claiming
pub mod Claims
pub mod HandOuts
pub mod Leases
mod Tests
use duragraph.Base.{
  ℕ, zero, suc, ◌+◌, Bool, true, false, not, ◌&&◌, ◌||◌, Option, none, some, List, [], ◌∷◌, ◌++◌,
  String, if◌then◌else◌, ◌==◌, ltb, leb, map,
}
use duragraph.Base.Text.{◌=ₛ◌, contains}
use duragraph.Base.Value.{GoMap}
use duragraph.Base.Errors.{DomainError, Result, ok, err, not_found}

pub data TaskStatus : Type 0 where
  pending claimed completed failed expired : TaskStatus

pub record Task : Type 0 where
  pub id : ℕ
  pub run_id : String
  pub worker_id : String
  pub status : TaskStatus
  pub graph_id : String
  pub thread_id : String
  pub assistant_id : String
  pub input : GoMap
  pub config : GoMap
  pub created_at : ℕ
  pub claimed_at : Option ℕ
  pub completed_at : Option ℕ
  pub lease_expires_at : Option ℕ
  pub retry_count : ℕ
  pub max_retries : ℕ
  pub error_message : String

-- The rows in the order of insertion, and the next value of the sequence of ids.
pub record Table : Type 0 where
  pub rows : List Task
  pub next_id : ℕ

unfoldable pub is_pending : Task → Bool
is_pending t = elim t.status [ pending ↦ true | _ ↦ false ]

unfoldable pub is_claimed : Task → Bool
is_claimed t = elim t.status [ claimed ↦ true | _ ↦ false ]

-- The inserted row has the columns that are given, and else the defaults of the table.
unfoldable pub create : ℕ → Task → Table → Table × Task
create now t table =
    let t' = record t {
      id = table.next_id;
      worker_id = "";
      status = pending;
      created_at = now;
      claimed_at = none;
      completed_at = none;
      lease_expires_at = none;
      retry_count = 0;
      error_message = "";
    } in
    (record { rows = table.rows ++ t' ∷ []; next_id = suc table.next_id }, t')

unfoldable pub has_id : ℕ → List ℕ → Bool
has_id n [] = false
has_id n (i ∷ is) = i == n || has_id n is

-- `WHERE status = 'pending' AND graph_id = ANY($1)`, and `SKIP LOCKED`.
unfoldable pub is_claimable : List String → List ℕ → Task → Bool
unfolding is_pending contains has_id
is_claimable graphs locked t =
    is_pending t && contains graphs t.graph_id && not (has_id t.id locked)

-- `ORDER BY created_at ASC`, over the rows that the condition lets through.
unfoldable pub insert_by_age : Task → List Task → List Task
insert_by_age t [] = t ∷ []
insert_by_age t (u ∷ us) =
    let rest = insert_by_age t us in if leb t.created_at u.created_at then t ∷ u ∷ us else u ∷ rest

unfoldable pub by_age : List String → List ℕ → List Task → List Task
by_age graphs locked [] = []
by_age graphs locked (t ∷ ts) =
    let rest = by_age graphs locked ts in
    if is_claimable graphs locked t then insert_by_age t rest else rest

-- `LIMIT $2`
unfoldable pub limit_to : ℕ → List Task → List Task
limit_to zero ts = []
limit_to (suc n) [] = []
limit_to (suc n) (t ∷ ts) = t ∷ limit_to n ts

abbrev pub ids : List Task → List ℕ
ids [] = []
ids (t ∷ ts) = t.id ∷ ids ts

-- The columns that a claim sets.
unfoldable pub claimed_by : ℕ → String → ℕ → Task → Task
claimed_by now worker lease t = record t {
  status = claimed;
  worker_id = worker;
  claimed_at = some now;
  lease_expires_at = some (now + lease);
}

-- `UPDATE ... WHERE` on the rows that a test lets through, and `RETURNING` them.
abbrev pub update_where : (Task → Bool) → (Task → Task) → List Task → List Task
update_where test f [] = []
update_where test f (t ∷ ts) = (if test t then f t else t) ∷ update_where test f ts

abbrev pub returning : (Task → Bool) → (Task → Task) → List Task → List Task
returning test f [] = []
returning test f (t ∷ ts) = let rest = returning test f ts in if test t then f t ∷ rest else rest

-- The ids that a claim takes; `locked` are the rows that other transactions hold.
unfoldable pub claim_ids : List String → List ℕ → ℕ → List Task → List ℕ
claim_ids graphs locked max_tasks ts = ids (limit_to max_tasks (by_age graphs locked ts))

unfoldable pub claim : ℕ → String → List String → ℕ → ℕ → List ℕ → Table → Table × List Task
claim now worker [] lease max_tasks locked table = (table, [])
claim now worker (g ∷ gs) lease max_tasks locked table =
    let taken = claim_ids (g ∷ gs) locked max_tasks table.rows in
    let chosen = λ (t : Task). has_id t.id taken in
    let set = claimed_by now worker lease in
    (record table { rows = update_where chosen set table.rows }, returning chosen set table.rows)

-- Whether rows are affected.
abbrev pub affected {ℓ} : {A : Type ℓ} → List Task → A → A → A
affected [] missing done = missing
affected (_ ∷ _) missing done = done

abbrev pub or_not_found :
    (Task → Bool) → (Task → Task) → String → Table → Table × Option DomainError
or_not_found test f resource table =
    affected (returning test f table.rows) (table, some (not_found "task_assignment" resource))
      (record table { rows = update_where test f table.rows }, none)

unfoldable pub complete : ℕ → ℕ → Table → Table × Option DomainError
complete now id table =
    or_not_found (λ t. t.id == id && is_claimed t)
      (λ t. record t { status = completed; completed_at = some now }) "" table

-- The status is not tested.
unfoldable pub fail : ℕ → ℕ → String → Table → Table × Option DomainError
fail now id message table =
    or_not_found (λ t. t.id == id)
      (λ t. record t { status = failed; completed_at = some now; error_message = message }) "" table

-- The newest task of the run; of two that are as new, the later row.
unfoldable pub newer : Option Task → Task → Task
newer none t = t
newer (some u) t = if ltb t.created_at u.created_at then u else t

unfoldable pub newest : String → List Task → Option Task → Option Task
newest run [] found = found
newest run (t ∷ ts) found = newest run ts (if t.run_id =ₛ run then some (newer found t) else found)

unfoldable pub find_by_run_id : String → Table → Result Task
find_by_run_id run table = elim (newest run table.rows none) [
  | none ↦ err (not_found "task_assignment" run)
  | some t ↦ ok t
]

abbrev pub before : Option ℕ → ℕ → Bool
before none now = false
before (some at) now = ltb at now

unfoldable pub is_expired : ℕ → Task → Bool
unfolding is_claimed
is_expired now t = is_claimed t && before t.lease_expires_at now

-- `ORDER BY lease_expires_at ASC`
abbrev pub lease_of : Task → ℕ
lease_of t = elim t.lease_expires_at [ none ↦ 0 | some at ↦ at ]

unfoldable pub insert_by_lease : Task → List Task → List Task
insert_by_lease t [] = t ∷ []
insert_by_lease t (u ∷ us) =
    let rest = insert_by_lease t us in
    if leb (lease_of t) (lease_of u) then t ∷ u ∷ us else u ∷ rest

unfoldable pub find_expired_leases : ℕ → List Task → List Task
find_expired_leases now [] = []
find_expired_leases now (t ∷ ts) =
    let rest = find_expired_leases now ts in
    if is_expired now t then insert_by_lease t rest else rest

-- The columns that `RetryOrFail` sets. The counts are 32-bit columns in the table and numbers without a
-- bound here.
unfoldable pub retried : ℕ → Task → Task
retried now t =
    if ltb t.retry_count t.max_retries
    then record t {
      status = pending;
      worker_id = "";
      claimed_at = none;
      lease_expires_at = none;
      retry_count = t.retry_count + 1;
    }
    else record t {
      status = failed;
      retry_count = t.retry_count + 1;
      error_message = "max retries exceeded (lease expired)";
      completed_at = some now;
    }

unfoldable pub retry_or_fail : ℕ → ℕ → Table → Table × Option DomainError
retry_or_fail now id table = or_not_found (λ t. t.id == id && is_claimed t) (retried now) "" table
