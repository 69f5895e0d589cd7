-- ===== src/Task/HandOuts.antt =====
-- A task is not handed out for ever: the retry counts of task_assignment_repository.go bound it.
use duragraph.Base.{
  ℕ, suc, ◌+◌, ◌≤◌, ◌<◌, ◌≡◌, refl, sym, true, List, [], ◌∷◌, String, arith, All, All-append,
  Bool-cases, inl, inr, if◌then◌else◌, ◌==◌, ◌&&◌, some, ◌∙◌,
}
use mathlib.Core.Path.{subst}
use duragraph.Task.{
  Task, completed, failed, Table, is_pending, is_claimed, has_id, ids, create, claim, claim_ids,
  claimed_by, complete, fail, retried, retry_or_fail, returning, is_claimable,
}
use duragraph.Task.Selection.{All-map, taken_claimable}
use duragraph.Task.Claims.{
  Call, creates, claims, completes, fails, retries, call, calls, hand_outs, empty, Bounded, Good,
  ids-update_where, All-update_where, ids-append, Distinct-snoc, or_not_found-Good,
  complete-Bounded, fail-Bounded, id-retried, retried-Bounded, claimed-Bounded,
}

Bounded-mono : (m n : ℕ) (t : Task) → m ≤ n → Bounded n t → Bounded m t
Bounded-mono m n t h b = record {
  at_most = omega (arith, h, b.at_most);
  waiting = λ e. (omega (arith, h, (b.waiting e).0), (b.waiting e).1);
  running = λ e. (omega (arith, h, (b.running e).0), (b.running e).1);
}

Good-mono : (g g' : ℕ → ℕ) (table : Table) → ((i : ℕ) → g' i ≤ g i) → Good g table → Good g' table
Good-mono g g' table h k = record {
  distinct = k.distinct;
  below = k.below;
  bounded =
      All-map (λ t. Bounded (g t.id) t) (λ t. Bounded (g' t.id) t) table.rows
        (λ t b. Bounded-mono (g' t.id) (g t.id) t (h t.id) b) k.bounded;
  fresh = λ i e. omega (arith, h i, k.fresh i e);
}

create-Good :
    (g : ℕ → ℕ) (now : ℕ) (t : Task) (table : Table) → Good g table → Good g (create now t table).0
unfolding create is_pending is_claimed
create-Good g now t table h = record {
  distinct =
      rw (ids-append table.rows _)
        (Distinct-snoc (ids table.rows) table.next_id h.distinct h.below);
  below = rw (ids-append table.rows _) (
      All-append (λ i. i < suc table.next_id) (ids table.rows) (table.next_id ∷ [])
        (All-map (λ i. i < table.next_id) (λ i. i < suc table.next_id) (ids table.rows)
          (λ i k. omega (arith, k)) h.below)
        (omega arith, tt));
  bounded =
      All-append (λ u. Bounded (g u.id) u) table.rows (_ ∷ []) h.bounded
        (
          record {
            at_most = omega (arith, h.fresh table.next_id (omega arith));
            waiting = λ e. (omega (arith, h.fresh table.next_id (omega arith)), omega arith);
            running = λ e. cc;
          },
          tt,
        );
  fresh = λ i k. h.fresh i (omega (arith, k));
}

-- The ids of the rows that are handed out are taken, and ids of the table.
returned_taken :
    (is : List ℕ) (f : Task → Task) (i : ℕ) (ts : List Task)
    → ((t : Task) → (f t).id ≡ t.id)
    → has_id i (ids (returning (λ t. has_id t.id is) f ts)) ≡ true
    → has_id i is ≡ true
unfolding has_id
returned_taken is f i [] same h = cc
returned_taken is f i (t ∷ ts) same h = ground (arith, returned_taken is f i ts same, same t)

returned_below :
    (is : List ℕ) (f : Task → Task) (i n : ℕ) (ts : List Task)
    → ((t : Task) → (f t).id ≡ t.id)
    → All (λ j. j < n) (ids ts)
    → has_id i (ids (returning (λ t. has_id t.id is) f ts)) ≡ true
    → i < n
unfolding has_id
returned_below is f i n [] same b h = cc
returned_below is f i n (t ∷ ts) same b h =
    ground (arith, returned_below is f i n ts same b.1, same t, b.0)

-- How often, with one more list of rows that are handed out.
abbrev plus : (ℕ → ℕ) → List ℕ → ℕ → ℕ
plus g is i = (if has_id i is then 1 else 0) + g i

plus-le : (g : ℕ → ℕ) (is : List ℕ) (i : ℕ) → plus g is i ≤ g i + 1
plus-le g is i = ground arith

plus_other : (g : ℕ → ℕ) (is : List ℕ) (i : ℕ) → (has_id i is ≡ true → ⊥) → plus g is i ≡ g i
plus_other g is i h = elim (Bool-cases (has_id i is)) [
  | inl e ↦ absurd (h e)
  | inr e ↦ rw e (omega arith)
]

id-claimed_by :
    (now : ℕ) (worker : String) (lease : ℕ) (t : Task) → (claimed_by now worker lease t).id ≡ t.id
unfolding claimed_by
id-claimed_by now worker lease t = refl

claimable_pending :
    (graphs : List String) (locked : List ℕ) (t : Task)
    → is_claimable graphs locked t ≡ true
    → is_pending t ≡ true
unfolding is_claimable
claimable_pending graphs locked t h = ground arith

nothing_more : (g : ℕ → ℕ) (table : Table) → Good g table → Good (λ i. 0 + g i) table
nothing_more g table h = Good-mono g (λ i. 0 + g i) table (λ i. omega arith) h

claim-Good :
    (g : ℕ → ℕ) (now : ℕ) (worker : String) (graphs : List String) (lease n : ℕ) (locked : List ℕ)
    (table : Table)
    → Good g table
    → Good
        (plus g (ids (claim now worker graphs lease n locked table).1))
        (claim now worker graphs lease n locked table).0
unfolding claim has_id
claim-Good g now worker [] lease n locked table h = nothing_more g table h
claim-Good g now worker (a ∷ gs) lease n locked table h =
    let taken = claim_ids (a ∷ gs) locked n table.rows in
    let chosen = λ (t : Task). has_id t.id taken in
    let set = claimed_by now worker lease in
    let same = id-claimed_by now worker lease in
    let out = ids (returning chosen set table.rows) in
    record {
      distinct = rw (ids-update_where chosen set table.rows same) h.distinct;
      below = rw (ids-update_where chosen set table.rows same) h.below;
      bounded =
          All-update_where (λ t. Bounded (g t.id) t) (λ t. Bounded (plus g out t.id) t) chosen set
            table.rows
            (λ t m e b.
              subst (λ i. Bounded (plus g out i) (set t)) (sym (same t))
                (claimed-Bounded now worker lease (g t.id) (plus g out t.id) t
                  (claimable_pending (a ∷ gs) locked t
                    (taken_claimable (a ∷ gs) locked n table.rows t h.distinct m e))
                  (plus-le g out t.id) b))
            (λ t e b.
              subst (λ k. Bounded k t)
                (sym (
                  plus_other g out t.id
                    (λ x. cc (e, returned_taken taken set t.id table.rows same x))))
                b)
            h.bounded;
      fresh = λ i k.
          plus_other g out i (λ x.
            absurd (
              omega (arith, k, returned_below taken set i table.next_id table.rows same h.below x)))
          ∙ h.fresh i k;
    }

call-Good :
    (g : ℕ → ℕ) (c : Call) (table : Table)
    → Good g table
    → Good (plus g (ids (call c table).1)) (call c table).0
unfolding call has_id complete fail retry_or_fail
call-Good g (creates t now) table h = nothing_more g _ (create-Good g now t table h)
call-Good g (claims worker graphs lease n locked now) table h =
    claim-Good g now worker graphs lease n locked table h
call-Good g (completes id now) table h = nothing_more g _ (
    or_not_found-Good g table (λ t. t.id == id && is_claimed t)
      (λ t. record t { status = completed; completed_at = some now }) "" (λ t. refl)
      (λ t n e b. complete-Bounded now n t b) h)
call-Good g (fails id message now) table h = nothing_more g _ (
    or_not_found-Good g table (λ t. t.id == id)
      (λ t. record t { status = failed; completed_at = some now; error_message = message }) ""
      (λ t. refl) (λ t n e b. fail-Bounded now n message t b) h)
call-Good g (retries id now) table h = nothing_more g _ (
    or_not_found-Good g table (λ t. t.id == id && is_claimed t) (retried now) "" (id-retried now)
      (λ t n e b. retried-Bounded now n t (ground (arith, e)) b) h)

calls-Good :
    (g : ℕ → ℕ) (cs : List Call) (table : Table)
    → Good g table
    → Good (λ i. hand_outs i cs table + g i) (calls cs table)
unfolding calls hand_outs
calls-Good g [] table h = nothing_more g table h
calls-Good g (c ∷ cs) table h =
    Good-mono _ (λ i. hand_outs i (c ∷ cs) table + g i) _ (λ i. omega arith)
      (calls-Good (plus g (ids (call c table).1)) cs (call c table).0 (call-Good g c table h))

empty-Good : Good (λ i. 0) empty
empty-Good = record { distinct = tt; below = tt; bounded = tt; fresh = λ i k. refl }

-- However the statements are ordered, and whatever they are given, a task is handed out at most once
-- more often than its number of retries.
pub hand_outs-le :
    (cs : List Call) → All (λ t. hand_outs t.id cs empty ≤ t.max_retries + 1) (calls cs empty).rows
hand_outs-le cs =
    All-map _ (λ t. hand_outs t.id cs empty ≤ t.max_retries + 1) (calls cs empty).rows
      (λ t b. omega (arith, b.at_most)) (calls-Good (λ i. 0) cs empty empty-Good).bounded
