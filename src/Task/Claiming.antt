-- ===== src/Task/Claiming.antt =====
-- What a claim hands out and what it leaves.
use duragraph.Base.{some, ℕ, ◌+◌, ◌≤◌, ◌≡◌, ◌⊎◌, Bool, true, false, List, String, All, length}
use mathlib.Core.List.{Memᴰ}
use duragraph.Base.Text.{contains}
use duragraph.Task.{pending, claimed, Task, has_id}

-- A pending task of one of the graphs that no other transaction holds.
abbrev pub IsOpen : List String → List ℕ → Task → Type 0
IsOpen graphs locked t =
    (t.status ≡ pending) × (contains graphs t.graph_id ≡ true) × (has_id t.id locked ≡ false)

-- A task as the worker gets it.
abbrev pub handed : ℕ → String → ℕ → Task → Task
handed now worker lease t = record t {
  status = claimed;
  worker_id = worker;
  claimed_at = some now;
  lease_expires_at = some (now + lease);
}

-- What a claim may make of a row of the table: it is claimed and handed out, or it stays, and then,
-- if it could be claimed, `n` tasks are handed out and none of them is younger.
abbrev pub Claims : (Task → Task) → (Task → Type 0) → ℕ → List Task → Task → Task → Type 0
Claims set IsOne n ts t u =
    ((u ≡ set t) × IsOne t × Memᴰ u ts)
    ⊎ ((u ≡ t) × (IsOne t → (length ts ≡ n) × All (λ v. v.created_at ≤ t.created_at) ts))
