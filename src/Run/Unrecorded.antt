-- ===== src/Run/Unrecorded.antt =====
-- What the event log of a run does not hold (internal/domain/run/run.go, `Reconstruct`).
use duragraph.Base.{◌≡◌, refl, none, List, [], ◌∷◌, arith}
use duragraph.Base.Errors.{ok}
use duragraph.Run.{Run, zero_run}
use duragraph.Run.Events.{Event, created}
use duragraph.Run.Replay.{applied, apply_events, reconstruct}

-- The fields that replay leaves at Go's zero values.
abbrev pub Unleased : Run → Type 0
Unleased r =
    (r.version ≡ 0)
    × (r.lease_epoch ≡ 0)
    × (r.retry_count ≡ 0)
    × (r.worker_id ≡ "")
    × (r.lease_expires_at ≡ none)

applied-Unleased : (e : Event) (r : Run) → Unleased r → Unleased (applied e r)
unfolding applied
applied-Unleased (created e) r h = h
applied-Unleased _ r h = h

apply_events-Unleased :
    (es : List Event) (r : Run) {b : Run} → Unleased r → apply_events es r ≡ ok b → Unleased b
unfolding apply_events
apply_events-Unleased [] r u h = ground arith
apply_events-Unleased (e ∷ es) r u h =
    apply_events-Unleased es (applied e r) (applied-Unleased e r u) h

-- Whatever the log, a run that `Reconstruct` gives has version 0, lease epoch 0, no retries, no
-- worker and no lease.
pub reconstruct-Unleased : (es : List Event) {b : Run} → reconstruct es ≡ ok b → Unleased b
unfolding reconstruct
reconstruct-Unleased [] h = cc
reconstruct-Unleased (e ∷ es) h =
    apply_events-Unleased (e ∷ es) zero_run (refl, refl, refl, refl, refl) h
