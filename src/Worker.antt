-- ===== src/Worker.antt =====
-- internal/domain/worker/worker.go: a worker and the registry of workers. Counts are the 64-bit
-- patterns of Go's `int`. A worker is held by value: the registry is written under its lock.
pub mod Selection
pub mod Access
mod Tests
use duragraph.Base.{
  ℕ, suc, ◌+◌, ◌%◌, ◌^◌, Bool, true, false, ◌&&◌, Option, none, some, List, [], ◌∷◌, ◌++◌, String,
  if◌then◌else◌, ltb,
}
use duragraph.Base.Text.{◌=ₛ◌, contains}
use duragraph.Base.Dict.{Dict, lookup, insert, remove}
use duragraph.Base.Value.{GoMap}

pub data Status : Type 0 where
  ready running idle offline : Status
  other : String → Status

pub record NodeDefinition : Type 0 where
  pub id : String
  pub type : String
  pub config : GoMap

pub record EdgeDefinition : Type 0 where
  pub source : String
  pub target : String
  pub condition : String

pub record GraphDefinition : Type 0 where
  pub graph_id : String
  pub name : String
  pub description : String
  pub nodes : List NodeDefinition
  pub edges : List EdgeDefinition
  pub entry_point : String

pub record Capabilities : Type 0 where
  pub graphs : List String
  pub max_concurrent_runs : ℕ

pub record Worker : Type 0 where
  pub id : String
  pub name : String
  pub status : Status
  pub capabilities : Capabilities
  pub graph_definitions : List GraphDefinition
  pub active_runs : ℕ
  pub total_runs : ℕ
  pub failed_runs : ℕ
  pub last_heartbeat : ℕ
  pub registered_at : ℕ

-- `a < b` on two signed patterns.
unfoldable pub less_int : ℕ → ℕ → Bool
less_int a b = ltb ((a + 2 ^ 63) % 2 ^ 64) ((b + 2 ^ 63) % 2 ^ 64)

unfoldable pub can_execute : String → Worker → Bool
unfolding contains
can_execute graph w = contains w.capabilities.graphs graph

unfoldable pub has_capacity : Worker → Bool
unfolding less_int
has_capacity w = less_int w.active_runs w.capabilities.max_concurrent_runs

-- `time.Since(w.LastHeartbeat) < threshold` at the time `now`.
unfoldable pub is_healthy : ℕ → ℕ → Worker → Bool
is_healthy now threshold w = ltb now (w.last_heartbeat + threshold)

abbrev pub Registry : Type 0
Registry = Dict Worker

unfoldable pub register : ℕ → Worker → Registry → Registry
unfolding insert
register now w r = insert w.id (record w { registered_at = now; last_heartbeat = now }) r

unfoldable pub deregister : String → Registry → Registry × Bool
unfolding lookup remove
deregister id r = elim (lookup id r) [ none ↦ (r, false) | some w ↦ (remove id r, true) ]

unfoldable pub heartbeat : ℕ → String → Status → ℕ → ℕ → ℕ → Registry → Registry × Bool
unfolding lookup insert
heartbeat now id status active total failed r = elim (lookup id r) [
  | none ↦ (r, false)
  | some w ↦ (
    insert id
        (record w {
          status = status;
          active_runs = active;
          total_runs = total;
          failed_runs = failed;
          last_heartbeat = now;
        })
        r,
    true,
  )
]

-- The registry is listed in the order that this call's range draws; each order is a list of its own.
unfoldable pub find_worker_for_graph : String → ℕ → ℕ → Registry → Option Worker
find_worker_for_graph graph now threshold [] = none
find_worker_for_graph graph now threshold ((id, w) ∷ r) =
    let rest = find_worker_for_graph graph now threshold r in
    if can_execute graph w && has_capacity w && is_healthy now threshold w then some w else rest

unfoldable pub get_healthy_workers : ℕ → ℕ → Registry → List Worker
get_healthy_workers now threshold [] = []
get_healthy_workers now threshold ((id, w) ∷ r) =
    let rest = get_healthy_workers now threshold r in
    if is_healthy now threshold w then w ∷ rest else rest

unfoldable pub get_all_workers : Registry → List Worker
get_all_workers [] = []
get_all_workers ((id, w) ∷ r) = w ∷ get_all_workers r

-- The registry that is left, and how many workers were removed.
unfoldable pub cleanup_stale_workers : ℕ → ℕ → Registry → Registry × ℕ
cleanup_stale_workers now threshold [] = ([], 0)
cleanup_stale_workers now threshold ((id, w) ∷ r) =
    let (kept, removed) = cleanup_stale_workers now threshold r in
    if is_healthy now threshold w then ((id, w) ∷ kept, removed) else (kept, removed + 1)
