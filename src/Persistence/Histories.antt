-- ===== src/Persistence/Histories.antt =====
-- The row of a run and its events, through the steps of several clients: an invariant.
use duragraph.Base.{
  ℕ, suc, ◌+◌, ◌^◌, ◌≤◌, ◌<◌, ◌≡◌, ◌≢◌, refl, sym, ap, ◌∙◌, true, some, List, [], ◌∷◌, ◌++◌, String,
  arith, length, Bool-cases, Option-cases, inl, inr,
}
use mathlib.Core.Path.{subst}
use native.Mathlib.Decide.{ℕ_discrete}
use duragraph.Base.Text.{◌=ₛ◌}
use duragraph.Base.Dict.{
  Dict, lookup, insert, remove, lookup-insert, lookup-insert_self, lookup-remove,
}
use duragraph.Base.Errors.{ok}
use duragraph.Run.{Run, increment_version, clear_events}
use duragraph.Run.Commands.{Command, execute}
use duragraph.Run.Lifecycle.{IsConsistent}
use duragraph.Run.History.{IsReplayed}
use duragraph.Run.RoundTrip.{row, load-row, IsFilled}
use duragraph.Persistence.{save_events, logged_events, find_by_id, updated_row, update}
use duragraph.Persistence.Writes.{
  logged_events-save_events, runs-save_events, update_accepted, update_refused,
}
use duragraph.Persistence.Copies.{
  id-execute, version-execute, Draft, execute-Draft, clear_events-Draft, merged, merged_row,
}
use duragraph.Persistence.Merged.{
  merged-IsConsistent, merged-IsReplayed, version-merged, merged-IsFilled, id-merged, events-merged,
  cleared-merged,
}
use duragraph.Persistence.Sessions.{
  Step, load, change, commit, is_method, System, loaded, changed, committed, commit_copy, step,
  steps,
}

-- A client's copy: not newer than the row, and a draft of it if it is as new.
pub record IsCopy (stored copy : Run) : Type 0 where
  pub id : copy.id ≡ stored.id
  pub older : copy.version ≤ stored.version
  pub current : copy.version ≡ stored.version → Draft stored copy

fresh-IsCopy : (r : Run) → IsReplayed r → IsConsistent r → IsFilled r → IsCopy r (clear_events r)
unfolding clear_events
fresh-IsCopy r h c f = record {
  id = refl;
  older = omega arith;
  current = λ e. clear_events-Draft r h c f;
}

execute-IsCopy :
    (c : Command) (r a : Run) → is_method c ≡ true → IsCopy r a → IsCopy r (execute c a).0
execute-IsCopy c r a m h = record {
  id = id-execute c a ∙ h.id;
  older = rw (version-execute c a m) h.older;
  current = λ e. execute-Draft c r a (h.current (sym (version-execute c a m) ∙ e));
}

-- The row and the events of the run `id` are those of one run, which the clients have copies of;
-- its version can be increased `room` times.
pub record Holds (id : String) (room : ℕ) (s : System) : Type 0 where
  pub run : Run
  pub stored : lookup id s.db.runs ≡ some (row run)
  pub logged : logged_events id s.db.events ≡ run.events
  pub replayed : IsReplayed run
  pub consistent : IsConsistent run
  pub filled : IsFilled run
  pub named : run.id ≡ id
  pub positive : run.version ≢ 0
  pub bounded : run.version + room < 2 ^ 64
  pub copies : (client : String) (c : Run) → lookup client s.copies ≡ some c → IsCopy run c

-- The copies with one more, or one fewer.
copies-insert :
    (run c : Run) (client : String) (m : Dict Run)
    → ((k : String) (d : Run) → lookup k m ≡ some d → IsCopy run d)
    → IsCopy run c
    → (k : String) (d : Run) → lookup k (insert client c m) ≡ some d
    → IsCopy run d
copies-insert run c client m old new k d h = elim (Bool-cases (client =ₛ k)) [
  | inl e ↦ subst (IsCopy run) (ground (arith, lookup-insert client k c m)) new
  | inr e ↦ old k d (ground (arith, lookup-insert client k c m))
]

copies-remove :
    (run : Run) (client : String) (m : Dict Run)
    → ((k : String) (d : Run) → lookup k m ≡ some d → IsCopy run d)
    → (k : String) (d : Run) → lookup k (remove client m) ≡ some d
    → IsCopy run d
copies-remove run client m old k d h = old k d (ground (arith, lookup-remove client k m))

less_room : (id : String) (k : ℕ) (s : System) → Holds id (suc k) s → Holds id k s
less_room id k s h = record {
  run = h.run;
  stored = h.stored;
  logged = h.logged;
  replayed = h.replayed;
  consistent = h.consistent;
  filled = h.filled;
  named = h.named;
  positive = h.positive;
  bounded = omega (arith, h.bounded);
  copies = h.copies;
}

with_copies :
    (id : String) (k : ℕ) (s : System) (m : Dict Run) (h : Holds id k s)
    → ((client : String) (c : Run) → lookup client m ≡ some c → IsCopy h.run c)
    → Holds id k (record s { copies = m })
with_copies id k s m h copies = record {
  run = h.run;
  stored = h.stored;
  logged = h.logged;
  replayed = h.replayed;
  consistent = h.consistent;
  filled = h.filled;
  named = h.named;
  positive = h.positive;
  bounded = h.bounded;
  copies = copies;
}

pub Holds-find_by_id :
    (id : String) (k : ℕ) (s : System) (h : Holds id k s)
    → find_by_id id s.db ≡ ok (clear_events h.run)
unfolding find_by_id
Holds-find_by_id id k s h =
    rw (find_by_id, h.stored) (ap ok (load-row h.run h.consistent.stored h.filled h.positive))

load-Holds :
    (id client : String) (k : ℕ) (s : System)
    → Holds id k s
    → Holds id k (loaded client (find_by_id id s.db) s)
load-Holds id client k s h = rw (Holds-find_by_id id k s h) (
    with_copies id k s (insert client (clear_events h.run) s.copies) h (
      copies-insert h.run (clear_events h.run) client s.copies h.copies
        (fresh-IsCopy h.run h.replayed h.consistent h.filled)))

change-Holds :
    (id client : String) (k : ℕ) (c : Command) (s : System)
    → is_method c ≡ true
    → Holds id k s
    → Holds id k (changed client c (lookup client s.copies) s)
change-Holds id client k c s m h = elim (Option-cases (lookup client s.copies)) [
  | inl e ↦ rw e h
  | inr (a, e) ↦ rw e (
      with_copies id k s (insert client (execute c a).0 s.copies) h (
        copies-insert h.run (execute c a).0 client s.copies h.copies
          (execute-IsCopy c h.run a m (h.copies client a e))))
]

-- Every other copy is older than the row then.
older-IsCopy : (r r' b : Run) → r'.version ≡ r.version + 1 → r'.id ≡ r.id → IsCopy r b → IsCopy r' b
older-IsCopy r r' b n i c = record {
  id = c.id ∙ sym i;
  older = omega (arith, n, c.older);
  current = λ e. absurd (omega (arith, n, c.older, e));
}

-- A copy that is as new as the row is merged into it.
accepted-Holds :
    (uuid : ℕ → String) (sid client : String) (k : ℕ) (a : Run) (s : System)
    (h : Holds a.id (suc k) s)
    → a.version ≡ h.run.version
    → IsCopy h.run a
    → let a' = increment_version a in
      Holds a.id k (record {
        db =
            save_events uuid sid a.id a.events
              (record s.db { runs = insert a.id (updated_row a' (row h.run)) s.db.runs });
        copies = insert client (clear_events a') s.copies;
      })
accepted-Holds uuid sid client k a s h v c =
    let r = h.run in
    let r' = merged r a in
    let d = c.current v in
    let n : r'.version ≡ r.version + 1 = version-merged r a k v h.bounded in
    let written = record s.db {
      runs = insert a.id (updated_row (increment_version a) (row r)) s.db.runs;
    } in
    record {
      run = r';
      stored =
          ap (lookup a.id) (runs-save_events uuid sid a.id a.events written)
          ∙ (lookup-insert_self a.id (updated_row (increment_version a) (row r)) s.db.runs
              ∙ ap some (merged_row r a d.fixed));
      logged =
          logged_events-save_events uuid sid a.id a.events written
          ∙ (ap (λ l. l ++ a.events) h.logged ∙ sym (events-merged r a));
      replayed = merged-IsReplayed r a d.replayed;
      consistent = merged-IsConsistent r a d.consistent;
      filled = merged-IsFilled r a d.filled;
      named = id-merged r a;
      positive = omega (arith, n);
      bounded = omega (arith, n, h.bounded);
      copies =
          copies-insert r' (clear_events (increment_version a)) client s.copies
            (λ q b e. older-IsCopy r r' b n (id-merged r a ∙ c.id) (h.copies q b e))
            (subst (IsCopy r') (cleared-merged r a) (
              fresh-IsCopy r' (merged-IsReplayed r a d.replayed)
                (merged-IsConsistent r a d.consistent) (merged-IsFilled r a d.filled)));
    }

-- One commit, accepted or refused.
commit_copy-Holds :
    (uuid : ℕ → String) (sid client : String) (k : ℕ) (a : Run) (s : System)
    (h : Holds a.id (suc k) s)
    → IsCopy h.run a
    → Holds a.id k (committed client (update uuid sid a s.db) s)
commit_copy-Holds uuid sid client k a s h c = elim (ℕ_discrete a.version h.run.version) [
  | yes v ↦
      rw (update_accepted uuid sid a s.db (row h.run) h.stored v)
        (accepted-Holds uuid sid client k a s h v c)
  | no v ↦ rw (update_refused uuid sid a s.db (row h.run) h.stored v) (
      less_room a.id k _ (
        with_copies a.id (suc k) s (remove client s.copies) h
          (copies-remove h.run client s.copies h.copies)))
]

commit-Holds :
    (uuid : ℕ → String) (sid client id : String) (k : ℕ) (s : System)
    → Holds id (suc k) s
    → Holds id k (commit_copy client uuid sid (lookup client s.copies) s)
commit-Holds uuid sid client id k s h = elim (Option-cases (lookup client s.copies)) [
  | inl e ↦ rw e (less_room id k s h)
  | inr (a, e) ↦
      let c = h.copies client a e in
      rw e (
        subst
          (λ i.
            (g : Holds i (suc k) s)
            → IsCopy g.run a
            → Holds i k (committed client (update uuid sid a s.db) s))
          (c.id ∙ h.named) (commit_copy-Holds uuid sid client k a s) h c)
]

step-Holds :
    (id : String) (x : Step) (k : ℕ) (s : System) → Holds id (suc k) s → Holds id k (step id x s)
unfolding step
step-Holds id (load client) k s h = less_room id k _ (load-Holds id client (suc k) s h)
step-Holds id (change client c m) k s h = less_room id k _ (change-Holds id client (suc k) c s m h)
step-Holds id (commit client uuid sid) k s h = commit-Holds uuid sid client id k s h

pub steps-Holds :
    (id : String) (xs : List Step) (s : System)
    → Holds id (length xs) s
    → Holds id 0 (steps id xs s)
unfolding steps
steps-Holds id [] s h = h
steps-Holds id (x ∷ xs) s h = steps-Holds id xs (step id x s) (step-Holds id x (length xs) s h)
