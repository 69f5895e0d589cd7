-- ===== src/Service/Retrying.antt =====
-- `RetryOrFail` for one id and for several, row by row.
use duragraph.Base.{
  String, ℕ, ◌≡◌, refl, sym, ap, ◌∙◌, Bool, true, false, ◌&&◌, List, [], ◌∷◌, arith, Bool-cases,
  inl, inr, if◌then◌else◌, ◌==◌, map, Option, none, some,
}
use duragraph.Base.Errors.{DomainError, not_found}
use duragraph.Task
use duragraph.Task.{
  Table, is_claimed, is_expired, has_id, ids, retried, find_expired_leases, insert_by_lease,
  lease_of, update_where, returning, affected, or_not_found, retry_or_fail,
}

-- The condition of `RetryOrFail`, for some ids.
abbrev pub retry_if : ℕ → List ℕ → Task.Task → Task.Task
retry_if now is t = if has_id t.id is && is_claimed t then retried now t else t

not_returned :
    (test : Task.Task → Bool) (f : Task.Task → Task.Task) (ts : List Task.Task)
    → returning test f ts ≡ []
    → ts ≡ update_where test f ts
not_returned test f [] e = refl
not_returned test f (t ∷ ts) e = elim (Bool-cases (test t)) [
  | inl k ↦ cc (rw k at e)
  | inr k ↦ rw k (ap (λ us. t ∷ us) (not_returned test f ts (rw k at e)))
]

update_where-map :
    (test : Task.Task → Bool) (f : Task.Task → Task.Task) (ts : List Task.Task)
    → update_where test f ts ≡ map (λ t. if test t then f t else t) ts
update_where-map test f [] = refl
update_where-map test f (t ∷ ts) =
    ap (λ us. (if test t then f t else t) ∷ us) (update_where-map test f ts)

rows-affected :
    (ts : List Task.Task) (a b : Table × Option DomainError)
    → (ts ≡ [] → a.0.rows ≡ b.0.rows)
    → (affected ts a b).0.rows ≡ b.0.rows
rows-affected [] a b h = h refl
rows-affected (t ∷ ts) a b h = refl

-- Such a statement, row by row.
pub rows-or_not_found :
    (test : Task.Task → Bool) (f : Task.Task → Task.Task) (resource : String) (table : Table)
    → (or_not_found test f resource table).0.rows ≡ map (λ t. if test t then f t else t) table.rows
rows-or_not_found test f resource table =
    rows-affected (returning test f table.rows) (table, some (not_found "task_assignment" resource))
      (record table { rows = update_where test f table.rows }, none)
      (not_returned test f table.rows)
    ∙ update_where-map test f table.rows

same_test :
    (t : Task.Task) (i : ℕ) → (t.id == i && is_claimed t) ≡ (has_id t.id (i ∷ []) && is_claimed t)
unfolding has_id
same_test t i = ground arith

map-update_where :
    (now i : ℕ) (ts : List Task.Task)
    → update_where (λ t. t.id == i && is_claimed t) (retried now) ts
      ≡ map (retry_if now (i ∷ [])) ts
unfolding has_id
map-update_where now i [] = refl
map-update_where now i (t ∷ ts) =
    rw (same_test t i) (ap (λ us. retry_if now (i ∷ []) t ∷ us) (map-update_where now i ts))

pub rows-retry_or_fail :
    (now i : ℕ) (table : Table)
    → (retry_or_fail now i table).0.rows ≡ map (retry_if now (i ∷ [])) table.rows
unfolding retry_or_fail
rows-retry_or_fail now i table =
    let test = λ (t : Task.Task). t.id == i && is_claimed t in
    rows-affected (returning test (retried now) table.rows)
      (table, some (not_found "task_assignment" ""))
      (record table { rows = update_where test (retried now) table.rows }, none)
      (not_returned test (retried now) table.rows)
    ∙ map-update_where now i table.rows

-- A retried row is not claimed, so that no second round changes it.
pub is_claimed-retried : (now : ℕ) (t : Task.Task) → is_claimed (retried now t) ≡ false
unfolding retried is_claimed
is_claimed-retried now t = ground arith

retry_if_unclaimed :
    (now : ℕ) (is : List ℕ) (t : Task.Task) → is_claimed t ≡ false → retry_if now is t ≡ t
retry_if_unclaimed now is t e = ground (arith, e)

retry_if_none :
    (now i : ℕ) (is : List ℕ) (t : Task.Task)
    → i == t.id ≡ false
    → retry_if now (i ∷ is) t ≡ retry_if now is t
unfolding has_id
retry_if_none now i is t e = rw e refl

retry_if_found :
    (now i : ℕ) (is : List ℕ) (t : Task.Task)
    → i == t.id ≡ true
    → is_claimed t ≡ true
    → retry_if now (i ∷ is) t ≡ retried now t
unfolding has_id
retry_if_found now i is t e c = rw e (rw c refl)

pub retry_if_nil : (now : ℕ) (t : Task.Task) → retry_if now [] t ≡ t
unfolding has_id
retry_if_nil now t = refl

retry_if_cons :
    (now i : ℕ) (is : List ℕ) (t : Task.Task)
    → retry_if now is (retry_if now (i ∷ []) t) ≡ retry_if now (i ∷ is) t
retry_if_cons now i is t = elim (Bool-cases (i == t.id)) [
  | inr e ↦
      ap (retry_if now is) (retry_if_none now i [] t e ∙ retry_if_nil now t)
      ∙ sym (retry_if_none now i is t e)
  | inl e ↦ elim (Bool-cases (is_claimed t)) [
    | inl c ↦
        ap (retry_if now is) (retry_if_found now i [] t e c)
        ∙ (retry_if_unclaimed now is (retried now t) (is_claimed-retried now t)
            ∙ sym (retry_if_found now i is t e c))
    | inr c ↦
        ap (retry_if now is) (retry_if_unclaimed now (i ∷ []) t c)
        ∙ (retry_if_unclaimed now is t c ∙ sym (retry_if_unclaimed now (i ∷ is) t c))
  ]
]

pub map-retry_if :
    (now i : ℕ) (is : List ℕ) (ts : List Task.Task)
    → map (retry_if now is) (map (retry_if now (i ∷ [])) ts) ≡ map (retry_if now (i ∷ is)) ts
map-retry_if now i is [] = refl
map-retry_if now i is (t ∷ ts) =
    rw (retry_if_cons now i is t)
      (ap (λ us. retry_if now (i ∷ is) t ∷ us) (map-retry_if now i is ts))
