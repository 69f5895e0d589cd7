-- ===== src/Worker/Tests.antt =====
-- A registry of two workers, one of which is silent.
use duragraph.Base.{◌↔◌, ◌+◌, ◌≡◌, refl, some, [], ◌∷◌, String, length}
use duragraph.Worker.{
  Worker, Registry, ready, is_healthy, can_execute, has_capacity, find_worker_for_graph,
  get_healthy_workers, get_all_workers, cleanup_stale_workers, register,
}
use duragraph.Worker.Selection.{Choice, cleanup_agrees}

abbrev worker : String → Worker
worker id = record {
  id = id;
  name = id;
  status = ready;
  capabilities = record { graphs = "g1" ∷ []; max_concurrent_runs = 2 };
  graph_definitions = [];
  active_runs = 0;
  total_runs = 0;
  failed_runs = 0;
  last_heartbeat = 0;
  registered_at = 0;
}

abbrev two : Registry
two = register 50 (worker "w2") (register 10 (worker "w1") [])

found_second :
    find_worker_for_graph "g1" 60 30 two
    ≡ some (record (worker "w2") { last_heartbeat = 50; registered_at = 50 })
unfolding find_worker_for_graph register can_execute has_capacity is_healthy
found_second = refl

cleanup_agrees_example :
    let (kept, removed) = cleanup_stale_workers 60 30 two in
    (get_all_workers kept ≡ get_healthy_workers 60 30 two)
    × ((w : Worker)
        → Choice "g1" 60 30 (get_all_workers kept) w ↔ Choice "g1" 60 30 (get_all_workers two) w)
    × (length kept + removed ≡ length two)
cleanup_agrees_example = cleanup_agrees "g1" 60 30 two
