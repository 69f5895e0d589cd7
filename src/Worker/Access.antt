-- ===== src/Worker/Access.antt =====
-- How removals and heartbeats show in the registry.
use duragraph.Base.{
  ℕ, ◌<◌, inl, inr, Option-cases, ◌≡◌, ◌≢◌, refl, Bool, true, false, Option, none, some, String,
  arith, if◌then◌else◌,
}
use duragraph.Base.Text.{◌=ₛ◌, =ₛ_iff}
use duragraph.Base.Dict.{lookup, insert, lookup-insert, lookup-insert_self, lookup-remove}
use duragraph.Worker.{Status, Worker, Registry, can_execute, is_healthy, deregister, heartbeat}

abbrev pub is_some {ℓ} : {A : Type ℓ} → Option A → Bool
is_some none = false
is_some (some a) = true

-- A worker that was removed is not found, and no other worker is lost; the answer is whether there
-- was one.
pub deregister_lem :
    (id j : String) (r : Registry)
    → (lookup j (deregister id r).0 ≡ (if id =ₛ j then none else lookup j r))
      × ((deregister id r).1 ≡ is_some (lookup id r))
unfolding deregister
deregister_lem id j r = ground (arith, =ₛ_iff id j, lookup-remove id j r)

-- A worker with the numbers of a heartbeat.
abbrev beaten : ℕ → Status → ℕ → ℕ → ℕ → Worker → Worker
beaten now status active total failed w = record w {
  status = status;
  active_runs = active;
  total_runs = total;
  failed_runs = failed;
  last_heartbeat = now;
}

heartbeat-none :
    (now : ℕ) (id : String) (status : Status) (active total failed : ℕ) (r : Registry)
    → lookup id r ≡ none
    → heartbeat now id status active total failed r ≡ (r, false)
unfolding heartbeat
heartbeat-none now id status active total failed r e = rw (heartbeat, e) refl

heartbeat-some :
    (now : ℕ) (id : String) (status : Status) (active total failed : ℕ) (r : Registry) (w : Worker)
    → lookup id r ≡ some w
    → heartbeat now id status active total failed r
      ≡ (insert id (beaten now status active total failed w) r, true)
unfolding heartbeat
heartbeat-some now id status active total failed r w e = rw (heartbeat, e) refl

-- A heartbeat is accepted exactly from a registered worker. The worker is then healthy at that
-- time for every positive threshold and has the active runs that it reported; what it can execute
-- and every other worker are as before.
pub heartbeat_lem :
    (now : ℕ) (id : String) (status : Status) (active total failed : ℕ) (r : Registry)
    → let (r', accepted) = heartbeat now id status active total failed r in
      (accepted ≡ is_some (lookup id r))
      × ((j : String) → j ≢ id → lookup j r' ≡ lookup j r)
      × ((w : Worker) (threshold : ℕ) (graph : String)
          → lookup id r ≡ some w
          → 0 < threshold
          → (w' : Worker) × (lookup id r' ≡ some w')
            × (is_healthy now threshold w' ≡ true)
            × (can_execute graph w' ≡ can_execute graph w)
            × (w'.active_runs ≡ active))
unfolding is_healthy can_execute
heartbeat_lem now id status active total failed r = elim (Option-cases (lookup id r)) [
  | inl e ↦
      rw (heartbeat-none now id status active total failed r e, e)
        (refl, λ j n. refl, λ w threshold graph h k. absurd (ground arith))
  | inr (v, e) ↦
      let v' = beaten now status active total failed v in
      rw (heartbeat-some now id status active total failed r v e, e)
        (
          refl,
          λ j n. ground (arith, lookup-insert id j v' r, =ₛ_iff id j),
          λ w threshold graph h k.
              (v', lookup-insert_self id v' r, ground arith, ground arith, refl),
        )
]
