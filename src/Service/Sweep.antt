-- ===== src/Service/Sweep.antt =====
-- What `MonitorExpiredLeases` does to the table of tasks.
use duragraph.Base.{
  Pairwise, map-Pairwise, ◌+◌, ◌<◌, ◌≤◌, ◌⊎◌, Option-cases, ℕ, suc, ◌≡◌, refl, sym, ap, ◌∙◌, true,
  false, List, [], ◌∷◌, String, arith, All, Bool-cases, inl, inr, if◌then◌else◌, map, Option, none,
  some,
}
use mathlib.Core.List.{Memᴰ}
use mathlib.Core.Path.{subst}
use mathlib.Core.Bool.{false≢true}
use duragraph.Base.Errors.{DomainError, Result, ok, err}
use duragraph.Task
use duragraph.Task.{
  Table, pending, claimed, failed, is_claimed, is_expired, has_id, ids, retried,
  find_expired_leases, insert_by_lease, lease_of, update_where, returning, affected, or_not_found,
  retry_or_fail,
}
use duragraph.Service.Retrying.{
  retry_if, rows-retry_or_fail, is_claimed-retried, retry_if_nil, map-retry_if,
}
use duragraph.Task.Leases.{expired, expired-mem, mem-has_id}
use duragraph.Task.Selection.{Distinct, All-map, All-self, unique, has_id-All}
use duragraph.Run.{Run, fail}
use duragraph.Persistence.{Db, Failure, find_by_id, update}
use duragraph.Service.{
  World, is_failed, stored, fail_run, settle, expire, expire_all, monitor_expired_leases,
}

map_nil : (now : ℕ) (ts : List Task.Task) → ts ≡ map (retry_if now []) ts
map_nil now [] = refl
map_nil now (t ∷ ts) = rw (retry_if_nil now t) (ap (λ us. t ∷ us) (map_nil now ts))

tasks-stored : (w : World) (o : Db × Run × Option Failure) → (stored w o).0.tasks ≡ w.tasks
tasks-stored w (db, r, none) = refl
tasks-stored w (db, r, some e) = refl

Result-cases :
    {A : Type 0} (o : Result A) → ((a : A) × (o ≡ ok a)) ⊎ ((e : DomainError) × (o ≡ err e))
Result-cases (ok a) = inl (a, refl)
Result-cases (err e) = inr (e, refl)

tasks-fail_run :
    (uuid : ℕ → String) (sid : String) (now : ℕ) (id : String) (w : World)
    → (fail_run uuid sid now id w).tasks ≡ w.tasks
unfolding fail_run
tasks-fail_run uuid sid now id w = elim (Result-cases (find_by_id id w.db)) [
  | inl (r, e) ↦
      rw (fail_run, e)
        (tasks-stored w
          (update uuid sid (fail now "worker lease expired after max retries" r).0 w.db))
  | inr (x, e) ↦ rw (fail_run, e) refl
]

tasks-settle :
    (uuid : ℕ → String) (sid : String) (now : ℕ) (id : String) (found : Result Task.Task)
    (w : World)
    → (settle uuid sid now id found w).tasks ≡ w.tasks
unfolding settle
tasks-settle uuid sid now id (err e) w = refl
tasks-settle uuid sid now id (ok t) w = elim (Bool-cases (is_failed t)) [
  | inl e ↦ rw e (tasks-fail_run uuid sid now id w)
  | inr e ↦ rw e refl
]

tasks-expire :
    (uuid : ℕ → String) (sid : String) (now : ℕ) (t : Task.Task) (w : World)
    → (expire uuid sid now t w).tasks ≡ (retry_or_fail now t.id w.tasks).0
unfolding expire
tasks-expire uuid sid now t w = elim (Option-cases (retry_or_fail now t.id w.tasks).1) [
  | inl e ↦ rw (expire, e) (tasks-settle uuid sid now t.run_id _ _)
  | inr (x, e) ↦ rw (expire, e) refl
]

rows-expire_all :
    (uuid : ℕ → ℕ → String) (sid : ℕ → String) (now i : ℕ) (es : List Task.Task) (w : World)
    → (expire_all uuid sid now i es w).tasks.rows ≡ map (retry_if now (ids es)) w.tasks.rows
unfolding expire_all
rows-expire_all uuid sid now i [] w = map_nil now w.tasks.rows
rows-expire_all uuid sid now i (t ∷ es) w =
    let w' = expire (uuid i) (sid i) now t w in
    rows-expire_all uuid sid now (suc i) es w'
    ∙ (ap (λ (table : Table). map (retry_if now (ids es)) table.rows)
          (tasks-expire (uuid i) (sid i) now t w)
        ∙ (ap (map (retry_if now (ids es))) (rows-retry_or_fail now t.id w.tasks)
            ∙ map-retry_if now t.id (ids es) w.tasks.rows))

map-congr :
    (f g : Task.Task → Task.Task) (ts : List Task.Task)
    → All (λ t. f t ≡ g t) ts
    → map f ts ≡ map g ts
map-congr f g [] h = refl
map-congr f g (t ∷ ts) h = rw h.0 (ap (λ us. g t ∷ us) (map-congr f g ts h.1))

-- What is to happen to a row.
abbrev pub swept : ℕ → Task.Task → Task.Task
swept now t = if is_expired now t then retried now t else t

expired_claimed : (now : ℕ) (t : Task.Task) → is_expired now t ≡ true → is_claimed t ≡ true
unfolding is_expired
expired_claimed now t h = ground arith

retry_if-swept :
    (now : ℕ) (rows : List Task.Task)
    → Distinct (ids rows)
    → (t : Task.Task) → Memᴰ t rows
    → retry_if now (ids (find_expired_leases now rows)) t ≡ swept now t
retry_if-swept now rows d t m =
    let is = ids (find_expired_leases now rows) in
    elim (Bool-cases (is_expired now t)) [
      | inl e ↦ rw e (
          rw (expired_claimed now t e)
            (rw (mem-has_id (find_expired_leases now rows) t (expired-mem now rows t m e)) refl))
      | inr e ↦ elim (Bool-cases (has_id t.id is)) [
        | inr n ↦ rw e (rw n refl)
        | inl y ↦
            let (u, (f, x), i) =
              has_id-All (λ v. Memᴰ v rows × (is_expired now v ≡ true)) t.id
                (find_expired_leases now rows) (expired now rows) y in
            absurd (cc (e, x, unique rows u t d f m i))
      ]
    ]

rows-monitor :
    (uuid : ℕ → ℕ → String) (sid : ℕ → String) (now : ℕ) (w : World)
    → Distinct (ids w.tasks.rows)
    → (monitor_expired_leases uuid sid now w).tasks.rows ≡ map (swept now) w.tasks.rows
unfolding monitor_expired_leases
rows-monitor uuid sid now w d =
    rows-expire_all uuid sid now 0 (find_expired_leases now w.tasks.rows) w
    ∙ map-congr (retry_if now (ids (find_expired_leases now w.tasks.rows))) (swept now) w.tasks.rows
        (All-map (λ t. Memᴰ t w.tasks.rows)
          (λ t. retry_if now (ids (find_expired_leases now w.tasks.rows)) t ≡ swept now t)
          w.tasks.rows (λ t m. retry_if-swept now w.tasks.rows d t m) (All-self w.tasks.rows))

is_expired-swept : (now : ℕ) (t : Task.Task) → is_expired now (swept now t) ≡ false
unfolding is_expired
is_expired-swept now t = ground (arith, is_claimed-retried now t)

-- A claimed task whose lease is past.
abbrev pub IsLate : ℕ → Task.Task → Type 0
IsLate now t = (t.status ≡ claimed) × ((at : ℕ) × (t.lease_expires_at ≡ some at) × (at < now))

-- What a round has to make of a task.
pub record Settled (now : ℕ) (t u : Task.Task) : Type 0 where
  pub kept : ¬ IsLate now t → u ≡ t
  pub retried :
      IsLate now t
      → t.retry_count < t.max_retries
      → u ≡ record t {
        status = pending;
        worker_id = "";
        claimed_at = none;
        lease_expires_at = none;
        retry_count = t.retry_count + 1;
      }
  pub failed :
      IsLate now t
      → t.max_retries ≤ t.retry_count
      → u ≡ record t {
        status = Task.failed;
        retry_count = t.retry_count + 1;
        error_message = "max retries exceeded (lease expired)";
        completed_at = some now;
      }

late : (now : ℕ) (t : Task.Task) → IsLate now t → is_expired now t ≡ true
unfolding is_expired is_claimed
late now t (c, (at, l, x)) = rw c (rw l (ground (arith, x)))

not-IsLate : (now : ℕ) (t : Task.Task) → is_expired now t ≡ false → ¬ IsLate now t
not-IsLate now t e h = let l = late now t h in cc (e, l)

claimed_status : (t : Task.Task) → is_claimed t ≡ true → t.status ≡ claimed
unfolding is_claimed
claimed_status t h = ground arith

is_late : (now : ℕ) (t : Task.Task) → is_expired now t ≡ true → IsLate now t
unfolding is_expired
is_late now t e = elim (Option-cases t.lease_expires_at) [
  | inl n ↦ absurd (false≢true (ground (arith, e, n)))
  | inr (at, l) ↦ (claimed_status t (ground (arith, e)), (at, l, ground (arith, e, l)))
]

swept-Settled : (now : ℕ) (t : Task.Task) → Settled now t (swept now t)
unfolding retried
swept-Settled now t = record {
  kept = λ n. elim (Bool-cases (is_expired now t)) [
    | inl e ↦ absurd (n (is_late now t e))
    | inr e ↦ rw e refl
  ];
  retried = λ l h. let e = late now t l in ground (arith, e, h);
  failed = λ l h. let e = late now t l in ground (arith, e, h);
}

swept-All : (now : ℕ) (ts : List Task.Task) → All (λ t. ¬ IsLate now t) (map (swept now) ts)
swept-All now [] = tt
swept-All now (t ∷ ts) = (not-IsLate now (swept now t) (is_expired-swept now t), swept-All now ts)

All-Settled : (now : ℕ) (ts : List Task.Task) → All (λ t. Settled now t (swept now t)) ts
All-Settled now [] = tt
All-Settled now (t ∷ ts) = (swept-Settled now t, All-Settled now ts)

-- Each task that is claimed and whose lease is past is back in the queue with one more retry counted,
-- or failed when it has no retry left, and every other task is as it was, in the same order. No
-- task is claimed with a lease that is past then. The ids of the tasks have to differ.
pub monitor_lem :
    (uuid : ℕ → ℕ → String) (sid : ℕ → String) (now : ℕ) (w : World)
    → Distinct (ids w.tasks.rows)
    → let rows = (monitor_expired_leases uuid sid now w).tasks.rows in
      Pairwise (Settled now) w.tasks.rows rows × All (λ t. ¬ IsLate now t) rows
monitor_lem uuid sid now w d = (
  subst (Pairwise (Settled now) w.tasks.rows) (sym (rows-monitor uuid sid now w d))
      (map-Pairwise (Settled now) (swept now) w.tasks.rows (All-Settled now w.tasks.rows)),
  subst (All (λ t. ¬ IsLate now t)) (sym (rows-monitor uuid sid now w d))
      (swept-All now w.tasks.rows),
)
