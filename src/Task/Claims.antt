-- ===== src/Task/Claims.antt =====
-- How often a task is handed out over a history of the table.
use duragraph.Base.{
  ℕ, ◌+◌, ◌≤◌, ◌<◌, ◌≡◌, ◌≢◌, refl, sym, ap, ltb, Option, none, some, Bool, true, false, List, [],
  ◌∷◌, ◌++◌, String, arith, All, All-append, Bool-cases, inl, inr, if◌then◌else◌,
}
use mathlib.Core.List.{Memᴰ}
use mathlib.Core.Path.{subst}
use duragraph.Base.Errors.{DomainError, not_found}
use duragraph.Task.{
  Task, completed, failed, Table, affected, is_pending, is_claimed, has_id, ids, create, claim,
  claimed_by, complete, fail, retried, retry_or_fail, update_where, returning, or_not_found,
}
use duragraph.Task.Selection.{Distinct}

-- The statements on the table, with the time of each.
pub data Call : Type 0 where
  creates : Task → ℕ → Call
  claims : String → List String → ℕ → ℕ → List ℕ → ℕ → Call
  completes : ℕ → ℕ → Call
  fails : ℕ → String → ℕ → Call
  retries : ℕ → ℕ → Call

-- The table afterwards, and the tasks that are handed out.
unfoldable pub call : Call → Table → Table × List Task
call (creates t now) table = ((create now t table).0, [])
call (claims worker graphs lease n locked now) table = claim now worker graphs lease n locked table
call (completes id now) table = ((complete now id table).0, [])
call (fails id message now) table = ((fail now id message table).0, [])
call (retries id now) table = ((retry_or_fail now id table).0, [])

unfoldable pub calls : List Call → Table → Table
calls [] table = table
calls (c ∷ cs) table = calls cs (call c table).0

-- In how many calls of a history the task `id` is handed out.
unfoldable pub hand_outs : ℕ → List Call → Table → ℕ
hand_outs id [] table = 0
hand_outs id (c ∷ cs) table =
    (if has_id id (ids (call c table).1) then 1 else 0) + hand_outs id cs (call c table).0

abbrev pub empty : Table
empty = record { rows = []; next_id = 1 }

-- A task that was handed out `n` times so far.
pub record Bounded (n : ℕ) (t : Task) : Type 0 where
  pub at_most : n ≤ t.max_retries + 1
  pub waiting : is_pending t ≡ true → (n ≤ t.retry_count) × (t.retry_count ≤ t.max_retries)
  pub running : is_claimed t ≡ true → (n ≤ t.retry_count + 1) × (t.retry_count ≤ t.max_retries)

pub record Good (g : ℕ → ℕ) (table : Table) : Type 0 where
  pub distinct : Distinct (ids table.rows)
  pub below : All (λ i. i < table.next_id) (ids table.rows)
  pub bounded : All (λ t. Bounded (g t.id) t) table.rows
  pub fresh : (i : ℕ) → table.next_id ≤ i → g i ≡ 0

pub ids-update_where :
    (test : Task → Bool) (f : Task → Task) (ts : List Task)
    → ((t : Task) → (f t).id ≡ t.id)
    → ids (update_where test f ts) ≡ ids ts
ids-update_where test f [] h = refl
ids-update_where test f (t ∷ ts) h = ground (arith, ids-update_where test f ts h, h t)

pub All-update_where :
    (P Q : Task → Type 0) (test : Task → Bool) (f : Task → Task) (ts : List Task)
    → ((t : Task) → Memᴰ t ts → test t ≡ true → P t → Q (f t))
    → ((t : Task) → test t ≡ false → P t → Q t)
    → All P ts
    → All Q (update_where test f ts)
All-update_where P Q test f [] h k a = tt
All-update_where P Q test f (t ∷ ts) h k a =
    let rest = All-update_where P Q test f ts (λ u m. h u (Memᴰ.tail m)) k a.1 in
    elim (Bool-cases (test t)) [
      | inl e ↦ rw e (h t (Memᴰ.head refl) e a.0, rest)
      | inr e ↦ rw e (k t e a.0, rest)
    ]

pub ids-append : (ts us : List Task) → ids (ts ++ us) ≡ ids ts ++ ids us
ids-append [] us = refl
ids-append (t ∷ ts) us = ap (λ l. t.id ∷ l) (ids-append ts us)

pub Distinct-snoc :
    (is : List ℕ) (n : ℕ) → Distinct is → All (λ i. i < n) is → Distinct (is ++ n ∷ [])
Distinct-snoc [] n d b = (tt, tt)
Distinct-snoc (i ∷ is) n d b = (
  All-append (λ j. j ≢ i) is (n ∷ []) d.0 ((λ e. absurd (omega (arith, b.0, e))), tt),
  Distinct-snoc is n d.1 b.1,
)

-- A statement that changes rows one by one, and hands nothing out.
changed-Good :
    (g : ℕ → ℕ) (table : Table) (test : Task → Bool) (f : Task → Task)
    → ((t : Task) → (f t).id ≡ t.id)
    → ((t : Task) (n : ℕ) → test t ≡ true → Bounded n t → Bounded n (f t))
    → Good g table
    → Good g (record table { rows = update_where test f table.rows })
changed-Good g table test f same keep h = record {
  distinct = rw (ids-update_where test f table.rows same) h.distinct;
  below = rw (ids-update_where test f table.rows same) h.below;
  bounded =
      All-update_where (λ t. Bounded (g t.id) t) (λ t. Bounded (g t.id) t) test f table.rows
        (λ t m e b. subst (λ i. Bounded (g i) (f t)) (sym (same t)) (keep t (g t.id) e b))
        (λ t e b. b) h.bounded;
  fresh = h.fresh;
}

affected-Good :
    (g : ℕ → ℕ) (ts : List Task) (a b : Table × Option DomainError)
    → Good g a.0
    → Good g b.0
    → Good g (affected ts a b).0
affected-Good g [] a b h k = h
affected-Good g (t ∷ ts) a b h k = k

pub or_not_found-Good :
    (g : ℕ → ℕ) (table : Table) (test : Task → Bool) (f : Task → Task) (resource : String)
    → ((t : Task) → (f t).id ≡ t.id)
    → ((t : Task) (n : ℕ) → test t ≡ true → Bounded n t → Bounded n (f t))
    → Good g table
    → Good g (or_not_found test f resource table).0
or_not_found-Good g table test f resource same keep h =
    affected-Good g (returning test f table.rows)
      (table, some (not_found "task_assignment" resource))
      (record table { rows = update_where test f table.rows }, none) h
      (changed-Good g table test f same keep h)

pub complete-Bounded :
    (now n : ℕ) (t : Task)
    → Bounded n t
    → Bounded n (record t { status = completed; completed_at = some now })
unfolding is_pending is_claimed
complete-Bounded now n t b = record { at_most = b.at_most; waiting = λ e. cc; running = λ e. cc }

pub fail-Bounded :
    (now n : ℕ) (message : String) (t : Task)
    → Bounded n t
    → Bounded n (record t { status = failed; completed_at = some now; error_message = message })
unfolding is_pending is_claimed
fail-Bounded now n message t b = record {
  at_most = b.at_most;
  waiting = λ e. cc;
  running = λ e. cc;
}

pub id-retried : (now : ℕ) (t : Task) → (retried now t).id ≡ t.id
unfolding retried
id-retried now t = ground arith

pub retried-Bounded :
    (now n : ℕ) (t : Task) → is_claimed t ≡ true → Bounded n t → Bounded n (retried now t)
unfolding retried is_pending is_claimed
retried-Bounded now n t e b =
    let (few, left) = b.running e in
    elim (Bool-cases (ltb t.retry_count t.max_retries)) [
      | inl k ↦
          rw k
            (record { at_most = b.at_most; waiting = λ x. (few, ground arith); running = λ x. cc })
      | inr k ↦ rw k (record { at_most = b.at_most; waiting = λ x. cc; running = λ x. cc })
    ]

pub claimed-Bounded :
    (now : ℕ) (worker : String) (lease n m : ℕ) (t : Task)
    → is_pending t ≡ true
    → m ≤ n + 1
    → Bounded n t
    → Bounded m (claimed_by now worker lease t)
unfolding claimed_by is_pending is_claimed
claimed-Bounded now worker lease n m t e h b =
    let (few, left) = b.waiting e in
    record {
      at_most = omega (arith, few, left, h);
      waiting = λ x. cc;
      running = λ x. (omega (arith, few, h), left);
    }
