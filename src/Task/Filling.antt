-- ===== src/Task/Filling.antt =====
-- A claim hands out as many tasks as it is asked for, if enough can be claimed.
use duragraph.Base.{
  ℕ, zero, suc, ◌+◌, ◌≤◌, ◌≡◌, ◌≢◌, refl, sym, ap, Bool, true, false, List, [], ◌∷◌, String, arith,
  All, length, Bool-cases, inl, inr, leb, Pairwise,
}
use mathlib.Core.List.{Memᴰ}
use duragraph.Task.{
  Task, has_id, is_claimable, insert_by_age, by_age, limit_to, ids, update_where, returning,
}
use duragraph.Task.Selection.{Distinct, insert_by_age-All, limit_to-All}

-- Rows of different ids, without the list of the ids.
abbrev pub Keyed : List Task → Type 0
Keyed [] = Unit
Keyed (t ∷ ts) = All (λ u. u.id ≢ t.id) ts × Keyed ts

ids-All : (i : ℕ) (ts : List Task) → All (λ j. j ≢ i) (ids ts) → All (λ u. u.id ≢ i) ts
ids-All i [] h = tt
ids-All i (t ∷ ts) h = (h.0, ids-All i ts h.1)

pub Keyed-ids : (ts : List Task) → Distinct (ids ts) → Keyed ts
Keyed-ids [] d = tt
Keyed-ids (t ∷ ts) d = (ids-All t.id ts d.0, Keyed-ids ts d.1)

insert_by_age-Keyed :
    (t : Task) (us : List Task) → All (λ u. u.id ≢ t.id) us → Keyed us → Keyed (insert_by_age t us)
unfolding insert_by_age
insert_by_age-Keyed t [] h k = (tt, tt)
insert_by_age-Keyed t (u ∷ us) h k = elim (Bool-cases (leb t.created_at u.created_at)) [
  | inl e ↦ rw e (h, k)
  | inr e ↦ rw e (
    insert_by_age-All (λ v. v.id ≢ u.id) t us (λ x. h.0 (sym x)) k.0,
    insert_by_age-Keyed t us h.1 k.1,
  )
]

by_age-All :
    (P : Task → Type 0) (graphs : List String) (locked : List ℕ) (ts : List Task)
    → All P ts
    → All P (by_age graphs locked ts)
unfolding by_age
by_age-All P graphs locked [] h = tt
by_age-All P graphs locked (t ∷ ts) h = elim (Bool-cases (is_claimable graphs locked t)) [
  | inl e ↦
      rw e (insert_by_age-All P t (by_age graphs locked ts) h.0 (by_age-All P graphs locked ts h.1))
  | inr e ↦ rw e (by_age-All P graphs locked ts h.1)
]

by_age-Keyed :
    (graphs : List String) (locked : List ℕ) (ts : List Task)
    → Keyed ts
    → Keyed (by_age graphs locked ts)
unfolding by_age
by_age-Keyed graphs locked [] h = tt
by_age-Keyed graphs locked (t ∷ ts) h = elim (Bool-cases (is_claimable graphs locked t)) [
  | inl e ↦ rw e (
      insert_by_age-Keyed t (by_age graphs locked ts)
        (by_age-All (λ u. u.id ≢ t.id) graphs locked ts h.0) (by_age-Keyed graphs locked ts h.1))
  | inr e ↦ rw e (by_age-Keyed graphs locked ts h.1)
]

limit_to-Keyed : (n : ℕ) (ts : List Task) → Keyed ts → Keyed (limit_to n ts)
unfolding limit_to
limit_to-Keyed zero ts h = tt
limit_to-Keyed (suc n) [] h = tt
limit_to-Keyed (suc n) (t ∷ ts) h =
    (limit_to-All (λ u. u.id ≢ t.id) n ts h.0, limit_to-Keyed n ts h.1)

pub selected-Keyed :
    (graphs : List String) (locked : List ℕ) (n : ℕ) (ts : List Task)
    → Distinct (ids ts)
    → Keyed (limit_to n (by_age graphs locked ts))
selected-Keyed graphs locked n ts d =
    limit_to-Keyed n (by_age graphs locked ts) (by_age-Keyed graphs locked ts (Keyed-ids ts d))

-- The limit is reached where it leaves a row out.
pub limit_to-full :
    (n : ℕ) (ts : List Task) (t : Task)
    → Memᴰ t ts
    → has_id t.id (ids (limit_to n ts)) ≡ false
    → length (limit_to n ts) ≡ n
unfolding limit_to has_id
limit_to-full zero ts t m h = refl
limit_to-full (suc n) [] t m h = elim m [ ]
limit_to-full (suc n) (u ∷ ts) t (Memᴰ.head p) h =
    absurd (ground (arith, ap (λ (x : Task). x.id) p))
limit_to-full (suc n) (u ∷ ts) t (Memᴰ.tail m) h = ap suc (limit_to-full n ts t m (ground arith))

has_id_none : (i : ℕ) (ts : List Task) → All (λ u. u.id ≢ i) ts → has_id i (ids ts) ≡ false
unfolding has_id
has_id_none i [] h = refl
has_id_none i (t ∷ ts) h = ground (arith, has_id_none i ts h.1, h.0)

-- One more id lets no fewer rows through, and one more if a row has it that was left out.
returning_mono :
    (f : Task → Task) (i : ℕ) (is : List ℕ) (ts : List Task)
    → length (returning (λ t. has_id t.id is) f ts)
      ≤ length (returning (λ t. has_id t.id (i ∷ is)) f ts)
unfolding has_id
returning_mono f i is [] = omega arith
returning_mono f i is (t ∷ ts) = ground (arith, returning_mono f i is ts)

returning_more :
    (f : Task → Task) (x : Task) (is : List ℕ) (ts : List Task)
    → has_id x.id is ≡ false
    → Memᴰ x ts
    → length (returning (λ t. has_id t.id is) f ts) + 1
      ≤ length (returning (λ t. has_id t.id (x.id ∷ is)) f ts)
unfolding has_id
returning_more f x is [] h m = elim m [ ]
returning_more f x is (t ∷ ts) h (Memᴰ.head p) =
    rw (← p) (rw h (ground (arith, returning_mono f x.id is ts)))
returning_more f x is (t ∷ ts) h (Memᴰ.tail m) = ground (arith, returning_more f x is ts h m)

-- Every row of a selection is returned.
pub length-selected :
    (f : Task → Task) (xs ts : List Task)
    → Keyed xs
    → All (λ x. Memᴰ x ts) xs
    → length xs ≤ length (returning (λ t. has_id t.id (ids xs)) f ts)
length-selected f [] ts k h = omega arith
length-selected f (x ∷ xs) ts k h = omega (
  arith,
  length-selected f xs ts k.1 h.1,
  returning_more f x (ids xs) ts (has_id_none x.id xs k.0) h.0,
)

-- An update, row by row.
pub update_where-Pairwise :
    (R : Task → Task → Type 0) (test : Task → Bool) (f : Task → Task) (ts : List Task)
    → ((t : Task) → Memᴰ t ts → test t ≡ true → R t (f t))
    → ((t : Task) → Memᴰ t ts → test t ≡ false → R t t)
    → Pairwise R ts (update_where test f ts)
update_where-Pairwise R test f [] h k = tt
update_where-Pairwise R test f (t ∷ ts) h k =
    let rest =
      update_where-Pairwise R test f ts (λ u m. h u (Memᴰ.tail m)) (λ u m. k u (Memᴰ.tail m)) in
    elim (Bool-cases (test t)) [
      | inl e ↦ rw e (h t (Memᴰ.head refl) e, rest)
      | inr e ↦ rw e (k t (Memᴰ.head refl) e, rest)
    ]
