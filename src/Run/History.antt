-- ===== src/Run/History.antt =====
-- Event sourcing: what the methods record, and what `Reconstruct` reads back.
use duragraph.Base.{
  ℕ, ◌≡◌, refl, ◌≢◌, ◌⊎◌, inl, inr, none, some, List, [], ◌∷◌, ◌++◌, String, arith, Bool-cases,
}
use duragraph.Base.Text.{=ₛ_iff}
use duragraph.Base.Value.{GoMap, or_empty}
use duragraph.Base.Errors.{ok}
use duragraph.Run.{
  Run, RunOptions, zero_run, first_options, new_run, or_reject, start, complete, fail, cancel,
  require_action, resume, increment_version, assign_to_worker, worker_heartbeat, increment_retry,
}
use duragraph.Run.Statuses.{
  in_progress, completed, failed, cancelled, requires_action, can_transition_to,
}
use duragraph.Run.Events.{
  RunCreated, Event, created, started, run_completed, run_failed, run_cancelled,
  run_requires_action, run_resumed,
}
use duragraph.Run.Commands.{
  Command, begin, finish, abort, stop, pause, continue, assign, beat, retry, bump, execute,
  execute_all,
}
use duragraph.Run.Replay.{applied, apply_events, reconstruct}

-- Two runs that agree on everything but the lease, the retry count, the version, the time of the
-- last update and the log.
pub record SameHistory (a b : Run) : Type 0 where
  pub id : a.id ≡ b.id
  pub thread_id : a.thread_id ≡ b.thread_id
  pub assistant_id : a.assistant_id ≡ b.assistant_id
  pub status : a.status ≡ b.status
  pub input : a.input ≡ b.input
  pub output : a.output ≡ b.output
  pub config : a.config ≡ b.config
  pub error_message : a.error_message ≡ b.error_message
  pub metadata : a.metadata ≡ b.metadata
  pub multitask_strategy : a.multitask_strategy ≡ b.multitask_strategy
  pub created_at : a.created_at ≡ b.created_at
  pub started_at : a.started_at ≡ b.started_at
  pub completed_at : a.completed_at ≡ b.completed_at

-- What one command does to the log, next to a replayed copy `b` of the run `r`.
abbrev Recorded : Run → Run → Run → Type 0
Recorded b r r' =
    ((r'.events ≡ r.events) × SameHistory b r')
    ⊎ ((e : Event) × (r'.events ≡ r.events ++ e ∷ []) × SameHistory (applied e b) r')

execute-Recorded : (c : Command) (b r : Run) → SameHistory b r → Recorded b r (execute c r).0
unfolding execute start complete fail cancel require_action resume increment_version
    assign_to_worker worker_heartbeat increment_retry applied
execute-Recorded (begin t) b r h = elim (Bool-cases (can_transition_to r.status in_progress)) [
  | inl ok' ↦ inr (started r.id t, ground arith, ground arith)
  | inr no' ↦ inl (ground arith)
]
execute-Recorded (finish out t) b r h = elim (Bool-cases (can_transition_to r.status completed)) [
  | inl ok' ↦ inr (run_completed r.id out t, ground arith, ground arith)
  | inr no' ↦ inl (ground arith)
]
execute-Recorded (abort m t) b r h = elim (Bool-cases (can_transition_to r.status failed)) [
  | inl ok' ↦ inr (run_failed r.id m t, ground arith, ground arith)
  | inr no' ↦ inl (ground arith)
]
execute-Recorded (stop m t) b r h = elim (Bool-cases (can_transition_to r.status cancelled)) [
  | inl ok' ↦ inr (run_cancelled r.id m t, ground arith, ground arith)
  | inr no' ↦ inl (ground arith)
]
execute-Recorded (pause i m cs t) b r h =
    elim (Bool-cases (can_transition_to r.status requires_action)) [
      | inl ok' ↦ inr (run_requires_action r.id i m cs t, ground arith, ground arith)
      | inr no' ↦ inl (ground arith)
    ]
execute-Recorded (continue i os t) b r h =
    elim (Bool-cases (can_transition_to r.status in_progress)) [
      | inl ok' ↦ inr (run_resumed r.id i os t, ground arith, ground arith)
      | inr no' ↦ inl (ground arith)
    ]
execute-Recorded (assign w d t) b r h = inl (ground arith)
execute-Recorded (beat d t) b r h = inl (ground arith)
execute-Recorded (retry t) b r h = inl (ground arith)
execute-Recorded bump b r h = inl (ground arith)

apply_events-append :
    (es : List Event) (e : Event) (r : Run) {b : Run}
    → apply_events es r ≡ ok b
    → apply_events (es ++ e ∷ []) r ≡ ok (applied e b)
unfolding apply_events
apply_events-append [] e r h = ground arith
apply_events-append (x ∷ es) e r h = apply_events-append es e (applied x r) h

append-ne-nil : (es : List Event) (e : Event) → es ++ e ∷ [] ≢ []
append-ne-nil [] e h = cc
append-ne-nil (x ∷ es) e h = cc

-- The log of `r`, replayed, gives a run with the same history.
pub record IsReplayed (r : Run) : Type 0 where
  pub copy : Run
  pub logged : r.events ≢ []
  pub replayed : apply_events r.events zero_run ≡ ok copy
  pub same : SameHistory copy r

Recorded-IsReplayed : (r r' : Run) (h : IsReplayed r) → Recorded h.copy r r' → IsReplayed r'
Recorded-IsReplayed r r' h (inl (kept, same)) = record {
  copy = h.copy;
  logged = rw kept h.logged;
  replayed = rw kept h.replayed;
  same = same;
}
Recorded-IsReplayed r r' h (inr (e, added, same)) = record {
  copy = applied e h.copy;
  logged = rw added (append-ne-nil r.events e);
  replayed = rw added (apply_events-append r.events e zero_run h.replayed);
  same = same;
}

pub execute-IsReplayed : (c : Command) (r : Run) → IsReplayed r → IsReplayed (execute c r).0
execute-IsReplayed c r h =
    Recorded-IsReplayed r (execute c r).0 h (execute-Recorded c h.copy r h.same)

execute_all-IsReplayed :
    (cs : List Command) (r : Run) → IsReplayed r → IsReplayed (execute_all cs r)
unfolding execute_all
execute_all-IsReplayed [] r h = h
execute_all-IsReplayed (c ∷ cs) r h =
    execute_all-IsReplayed cs (execute c r).0 (execute-IsReplayed c r h)

or_empty-or_empty : (m : GoMap) → or_empty (or_empty m) ≡ or_empty m
unfolding or_empty
or_empty-or_empty none = refl
or_empty-or_empty (some m) = refl

or_reject-or_reject : (s : String) → or_reject (or_reject s) ≡ or_reject s
unfolding or_reject
or_reject-or_reject s = ground (arith, =ₛ_iff s "")

-- The event that `NewRun` records.
abbrev created_of : Run → RunCreated
created_of r = record {
  run_id = r.id;
  thread_id = r.thread_id;
  assistant_id = r.assistant_id;
  input = r.input;
  config = r.config;
  metadata = r.metadata;
  multitask_strategy = r.multitask_strategy;
  occurred_at = r.created_at;
}

new_run_recorded :
    (now : ℕ) (id thread assistant : String) (input : GoMap) (opts : List RunOptions) {r : Run}
    → new_run now id thread assistant input opts ≡ ok r
    → (r.events ≡ created (created_of r) ∷ [])
      × SameHistory (applied (created (created_of r)) zero_run) r
unfolding new_run applied
new_run_recorded now id thread assistant input opts h =
    let o = first_options opts in
    ground (
      arith,
      or_empty-or_empty o.config,
      or_empty-or_empty o.metadata,
      or_reject-or_reject o.multitask_strategy,
    )

pub new_run-IsReplayed :
    (now : ℕ) (id thread assistant : String) (input : GoMap) (opts : List RunOptions) {r : Run}
    → new_run now id thread assistant input opts ≡ ok r
    → IsReplayed r
unfolding apply_events
new_run-IsReplayed now id thread assistant input opts {r} h =
    let (only, same) = new_run_recorded now id thread assistant input opts h in
    record {
      copy = applied (created (created_of r)) zero_run;
      logged = rw only (append-ne-nil [] (created (created_of r)));
      replayed = rw only refl;
      same = same;
    }

pub reconstruct-eq : (es : List Event) → es ≢ [] → reconstruct es ≡ apply_events es zero_run
unfolding reconstruct
reconstruct-eq [] h = absurd (h refl)
reconstruct-eq (e ∷ es) h = refl

-- A run that `NewRun` made and any commands changed is rebuilt from its event log: `Reconstruct`
-- succeeds, and gives a run that agrees with it on identity, status, input, output, error,
-- configuration and the times of creation, start and completion.
pub reconstruct-execute_all :
    (now : ℕ) (id thread assistant : String) (input : GoMap) (opts : List RunOptions) {r : Run}
    (cs : List Command)
    → new_run now id thread assistant input opts ≡ ok r
    → (b : Run) × (reconstruct (execute_all cs r).events ≡ ok b) × SameHistory b (execute_all cs r)
reconstruct-execute_all now id thread assistant input opts {r} cs h =
    let done =
      execute_all-IsReplayed cs r (new_run-IsReplayed now id thread assistant input opts h) in
    (done.copy, rw (reconstruct-eq _ done.logged) done.replayed, done.same)
