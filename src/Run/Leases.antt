-- ===== src/Run/Leases.antt =====
-- The lease epoch of a run (internal/domain/run/run.go) as a fencing token.
use duragraph.Base.{ℕ, suc, ◌+◌, ◌%◌, ◌^◌, ◌<◌, ◌≡◌, ◌≢◌, List, [], ◌∷◌, arith, inc_int}
use duragraph.Run.{
  Run, start, complete, fail, cancel, require_action, resume, increment_version, assign_to_worker,
  worker_heartbeat, increment_retry,
}
use duragraph.Run.Commands.{Command, begin, assign, retry, execute, execute_all}

-- How many commands of a history hand the run over: an assignment or a retry.
abbrev pub hand_overs : List Command → ℕ
hand_overs [] = 0
hand_overs (assign w d t ∷ cs) = suc (hand_overs cs)
hand_overs (retry t ∷ cs) = suc (hand_overs cs)
hand_overs (_ ∷ cs) = hand_overs cs

lease_epoch-execute :
    (c : Command) (cs : List Command) (r : Run)
    → ((execute c r).0.lease_epoch + hand_overs cs) % 2 ^ 64
      ≡ (r.lease_epoch + hand_overs (c ∷ cs)) % 2 ^ 64
unfolding execute start complete fail cancel require_action resume increment_version
    assign_to_worker worker_heartbeat increment_retry inc_int
lease_epoch-execute (begin t) cs r = ground arith
lease_epoch-execute _ cs r = ground arith

-- The epoch counts the hand-overs, modulo the word size.
pub lease_epoch-execute_all :
    (cs : List Command) (r : Run)
    → (execute_all cs r).lease_epoch % 2 ^ 64 ≡ (r.lease_epoch + hand_overs cs) % 2 ^ 64
unfolding execute_all
lease_epoch-execute_all [] r = omega arith
lease_epoch-execute_all (c ∷ cs) r =
    omega (arith, lease_epoch-execute_all cs (execute c r).0, lease_epoch-execute c cs r)

-- A worker that saw the run's epoch before it was handed over, at least once and fewer than 2^64
-- times, does not see it again: the old token is stale.
pub lease_epoch_fences :
    (cs : List Command) (r : Run)
    → 0 < hand_overs cs
    → hand_overs cs < 2 ^ 64
    → (execute_all cs r).lease_epoch ≢ r.lease_epoch
lease_epoch_fences cs r some_hand few = omega (arith, lease_epoch-execute_all cs r)
