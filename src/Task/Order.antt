-- ===== src/Task/Order.antt =====
-- A claim takes the oldest rows, and not more than it is asked for.
use duragraph.Base.{
  ℕ, zero, suc, ◌≤◌, ◌≡◌, refl, ap, true, false, List, [], ◌∷◌, String, arith, All, length,
  Bool-cases, inl, inr, leb,
}
use mathlib.Core.List.{Memᴰ}
use duragraph.Task.{Task, has_id, is_claimable, insert_by_age, by_age, limit_to, ids}
use duragraph.Task.Selection.{All-mem, All-map, insert_by_age-All}

abbrev IsSorted : List Task → Type 0
IsSorted [] = Unit
IsSorted (t ∷ ts) = All (λ u. t.created_at ≤ u.created_at) ts × IsSorted ts

insert_by_age-IsSorted : (t : Task) (us : List Task) → IsSorted us → IsSorted (insert_by_age t us)
unfolding insert_by_age
insert_by_age-IsSorted t [] h = (tt, tt)
insert_by_age-IsSorted t (u ∷ us) h = elim (Bool-cases (leb t.created_at u.created_at)) [
  | inl e ↦
      let le : t.created_at ≤ u.created_at = ground arith in
      rw e (
        (
          le,
          All-map (λ v. u.created_at ≤ v.created_at) (λ v. t.created_at ≤ v.created_at) us
              (λ v k. omega (arith, le)) h.0,
        ),
        h,
      )
  | inr e ↦
      let le : u.created_at ≤ t.created_at = ground arith in
      rw e (
        insert_by_age-All (λ v. u.created_at ≤ v.created_at) t us le h.0,
        insert_by_age-IsSorted t us h.1,
      )
]

pub by_age-IsSorted :
    (graphs : List String) (locked : List ℕ) (ts : List Task) → IsSorted (by_age graphs locked ts)
unfolding by_age
by_age-IsSorted graphs locked [] = tt
by_age-IsSorted graphs locked (t ∷ ts) = elim (Bool-cases (is_claimable graphs locked t)) [
  | inl e ↦
      rw e (insert_by_age-IsSorted t (by_age graphs locked ts) (by_age-IsSorted graphs locked ts))
  | inr e ↦ rw e (by_age-IsSorted graphs locked ts)
]

insert_by_age-head : (t : Task) (us : List Task) → Memᴰ t (insert_by_age t us)
unfolding insert_by_age
insert_by_age-head t [] = Memᴰ.head refl
insert_by_age-head t (u ∷ us) = elim (Bool-cases (leb t.created_at u.created_at)) [
  | inl e ↦ rw e (Memᴰ.head refl)
  | inr e ↦ rw e (Memᴰ.tail (insert_by_age-head t us))
]

insert_by_age-tail : (t u : Task) (us : List Task) → Memᴰ u us → Memᴰ u (insert_by_age t us)
unfolding insert_by_age
insert_by_age-tail t u (v ∷ us) (Memᴰ.head p) = elim (Bool-cases (leb t.created_at v.created_at)) [
  | inl e ↦ rw e (Memᴰ.tail (Memᴰ.head p))
  | inr e ↦ rw e (Memᴰ.head p)
]
insert_by_age-tail t u (v ∷ us) (Memᴰ.tail n) = elim (Bool-cases (leb t.created_at v.created_at)) [
  | inl e ↦ rw e (Memᴰ.tail (Memᴰ.tail n))
  | inr e ↦ rw e (Memᴰ.tail (insert_by_age-tail t u us n))
]
insert_by_age-tail t u [] m = elim m [ ]

pub by_age-mem :
    (graphs : List String) (locked : List ℕ) (ts : List Task) (t : Task)
    → Memᴰ t ts
    → is_claimable graphs locked t ≡ true
    → Memᴰ t (by_age graphs locked ts)
unfolding by_age
by_age-mem graphs locked [] t m c = elim m [ ]
by_age-mem graphs locked (u ∷ ts) t (Memᴰ.head p) c =
    rw (← p) (rw c (insert_by_age-head t (by_age graphs locked ts)))
by_age-mem graphs locked (u ∷ ts) t (Memᴰ.tail m) c =
    elim (Bool-cases (is_claimable graphs locked u)) [
      | inl e ↦
          rw e
            (insert_by_age-tail u t (by_age graphs locked ts) (by_age-mem graphs locked ts t m c))
      | inr e ↦ rw e (by_age-mem graphs locked ts t m c)
    ]

-- Of a sorted list, what the limit leaves out is not older than what it lets through.
pub limit_to-older :
    (n : ℕ) (ts : List Task) (t : Task)
    → IsSorted ts
    → Memᴰ t ts
    → has_id t.id (ids (limit_to n ts)) ≡ false
    → All (λ u. u.created_at ≤ t.created_at) (limit_to n ts)
unfolding limit_to has_id
limit_to-older zero ts t s m h = tt
limit_to-older (suc n) [] t s m h = elim m [ ]
limit_to-older (suc n) (u ∷ ts) t s (Memᴰ.head p) h =
    absurd (ground (arith, ap (λ (x : Task). x.id) p))
limit_to-older (suc n) (u ∷ ts) t s (Memᴰ.tail m) h = (
  All-mem (λ v. u.created_at ≤ v.created_at) ts s.0 m,
  limit_to-older n ts t s.1 m (ground arith),
)

pub length-limit_to : (n : ℕ) (ts : List Task) → length (ids (limit_to n ts)) ≤ n
unfolding limit_to
length-limit_to zero ts = omega arith
length-limit_to (suc n) [] = omega arith
length-limit_to (suc n) (t ∷ ts) = omega (arith, length-limit_to n ts)
