-- ===== src/Engine/Spare.antt =====
-- The rounds that the visit counts of internal/infrastructure/graph/engine.go leave, and the ids
-- that can come into the queue.
use duragraph.Base.{
  ℕ, ◌+◌, ◌-◌, ◌*◌, ◌≤◌, ◌<◌, Bool, true, false, Option, none, some, List, [], ◌∷◌, String, ◌≡◌,
  refl, arith, All, All-unappend, Bool-cases, inl, inr, length,
}
use mathlib.Core.Path.{subst}
use duragraph.Base.Text.{◌=ₛ◌, =ₛ_iff, contains}
use duragraph.Base.Dict.{Dict, lookup, insert, lookup-insert}
use duragraph.Base.Value.{Obj}
use duragraph.Execution.{ExecutionState}
use duragraph.Engine.{ExecutionPlan, targets_of, count_of, next_of, is_taken, keep, edge_key}
use duragraph.Engine.Machine.{max_iterations, all_targets}

-- How many more rounds the ids of a list can take.
abbrev pub spare : List String → Dict ℕ → ℕ
spare [] v = 0
spare (u ∷ us) v = (max_iterations - count_of (lookup u v)) + spare us v

pub spare-insert_le :
    (us : List String) (id : String) (n : ℕ) (v : Dict ℕ)
    → count_of (lookup id v) ≤ n
    → spare us (insert id n v) ≤ spare us v
spare-insert_le [] id n v h = omega arith
spare-insert_le (u ∷ us) id n v h =
    ground (arith, spare-insert_le us id n v h, lookup-insert id u n v, =ₛ_iff id u)

pub spare-insert_lt :
    (us : List String) (id : String) (v : Dict ℕ)
    → contains us id ≡ true
    → count_of (lookup id v) < max_iterations
    → spare us (insert id (count_of (lookup id v) + 1) v) < spare us v
unfolding contains
spare-insert_lt [] id v m h = cc
spare-insert_lt (u ∷ us) id v m h = ground (
  arith,
  spare-insert_le us id (count_of (lookup id v) + 1) v,
  spare-insert_lt us id v,
  lookup-insert id u (count_of (lookup id v) + 1) v,
  =ₛ_iff id u,
  =ₛ_iff u id,
)

pub spare-nil : (us : List String) → spare us [] ≡ max_iterations * length us
unfolding lookup
spare-nil [] = refl
spare-nil (u ∷ us) = omega (arith, spare-nil us)

-- The ids of a queue are all among `us`.
abbrev pub Within : List String → List String → Type 0
Within us q = All (λ id. contains us id ≡ true) q

pub all_targets-lookup :
    (adj : Dict (List String)) (id : String) (us : List String)
    → Within us (all_targets adj)
    → Within us (targets_of (lookup id adj))
unfolding all_targets lookup
all_targets-lookup [] id us h = tt
all_targets-lookup ((j, ts) ∷ adj) id us h =
    let (here, rest) = All-unappend (λ x. contains us x ≡ true) ts (all_targets adj) h in
    elim (Bool-cases (j =ₛ id)) [
      | inl e ↦ rw e here
      | inr e ↦ rw e (all_targets-lookup adj id us rest)
    ]

keep-Within :
    (us ts : List String) (t : String) (b : Option Bool) (rest : Option (List String))
    {ids : List String}
    → contains us t ≡ true
    → ((is : List String) → rest ≡ some is → Within us is)
    → keep t b rest ≡ some ids
    → Within us ids
keep-Within us ts t none rest k w h = cc
keep-Within us ts t (some false) rest {ids} k w h = w ids h
keep-Within us ts t (some true) none k w h = cc
keep-Within us ts t (some true) (some is) k w h =
    subst (λ o. Within us (targets_of o)) h (k, w is refl)

pub next_of-Within :
    (plan : ExecutionPlan) (id : String) (out : Obj) (s : ExecutionState) (us ts : List String)
    {ids : List String}
    → next_of plan id out s ts ≡ some ids
    → Within us ts
    → Within us ids
unfolding next_of
next_of-Within plan id out s us [] h w = subst (λ o. Within us (targets_of o)) h tt
next_of-Within plan id out s us (t ∷ ts) {ids} h w =
    keep-Within us ts t (is_taken (lookup (edge_key id t) plan.edge_map) out s)
      (next_of plan id out s ts) {ids = ids} w.0 (λ is p. next_of-Within plan id out s us ts p w.1)
      h
