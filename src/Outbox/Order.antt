-- ===== src/Outbox/Order.antt =====
-- The oldest rows that are due come first.
use duragraph.Base.{
  ℕ, zero, suc, ◌≤◌, ◌≡◌, ◌⊎◌, refl, ap, true, List, [], ◌∷◌, arith, All, Bool-cases, inl, inr, leb,
  length,
}
use mathlib.Core.List.{Memᴰ}
use duragraph.Task.Selection.{All-mem, All-map}
use duragraph.Outbox.{Message, is_ready, insert_by_age, ready_by_age, limit_to}

pub insert_by_age-All :
    (P : Message → Type 0) (m : Message) (ns : List Message)
    → P m
    → All P ns
    → All P (insert_by_age m ns)
unfolding insert_by_age
insert_by_age-All P m [] h k = (h, tt)
insert_by_age-All P m (n ∷ ns) h k = elim (Bool-cases (leb m.created_at n.created_at)) [
  | inl e ↦ rw e (h, k)
  | inr e ↦ rw e (k.0, insert_by_age-All P m ns h k.1)
]

abbrev IsSorted : List Message → Type 0
IsSorted [] = Unit
IsSorted (m ∷ ms) = All (λ n. m.created_at ≤ n.created_at) ms × IsSorted ms

insert_by_age-IsSorted :
    (m : Message) (ns : List Message) → IsSorted ns → IsSorted (insert_by_age m ns)
unfolding insert_by_age
insert_by_age-IsSorted m [] h = (tt, tt)
insert_by_age-IsSorted m (n ∷ ns) h = elim (Bool-cases (leb m.created_at n.created_at)) [
  | inl e ↦
      let le : m.created_at ≤ n.created_at = ground arith in
      rw e (
        (
          le,
          All-map (λ o. n.created_at ≤ o.created_at) (λ o. m.created_at ≤ o.created_at) ns
              (λ o k. omega (arith, le)) h.0,
        ),
        h,
      )
  | inr e ↦
      let le : n.created_at ≤ m.created_at = ground arith in
      rw e (
        insert_by_age-All (λ o. n.created_at ≤ o.created_at) m ns le h.0,
        insert_by_age-IsSorted m ns h.1,
      )
]

pub ready_by_age-IsSorted : (now : ℕ) (ms : List Message) → IsSorted (ready_by_age now ms)
unfolding ready_by_age
ready_by_age-IsSorted now [] = tt
ready_by_age-IsSorted now (m ∷ ms) = elim (Bool-cases (is_ready now m)) [
  | inl e ↦ rw e (insert_by_age-IsSorted m (ready_by_age now ms) (ready_by_age-IsSorted now ms))
  | inr e ↦ rw e (ready_by_age-IsSorted now ms)
]

insert_by_age-head : (m : Message) (ns : List Message) → Memᴰ m (insert_by_age m ns)
unfolding insert_by_age
insert_by_age-head m [] = Memᴰ.head refl
insert_by_age-head m (n ∷ ns) = elim (Bool-cases (leb m.created_at n.created_at)) [
  | inl e ↦ rw e (Memᴰ.head refl)
  | inr e ↦ rw e (Memᴰ.tail (insert_by_age-head m ns))
]

insert_by_age-tail : (m n : Message) (ns : List Message) → Memᴰ n ns → Memᴰ n (insert_by_age m ns)
unfolding insert_by_age
insert_by_age-tail m n (o ∷ ns) (Memᴰ.head p) = elim (Bool-cases (leb m.created_at o.created_at)) [
  | inl e ↦ rw e (Memᴰ.tail (Memᴰ.head p))
  | inr e ↦ rw e (Memᴰ.head p)
]
insert_by_age-tail m n (o ∷ ns) (Memᴰ.tail k) = elim (Bool-cases (leb m.created_at o.created_at)) [
  | inl e ↦ rw e (Memᴰ.tail (Memᴰ.tail k))
  | inr e ↦ rw e (Memᴰ.tail (insert_by_age-tail m n ns k))
]
insert_by_age-tail m n [] k = elim k [ ]

pub ready_by_age-mem :
    (now : ℕ) (ms : List Message) (m : Message)
    → Memᴰ m ms
    → is_ready now m ≡ true
    → Memᴰ m (ready_by_age now ms)
unfolding ready_by_age
ready_by_age-mem now [] m k h = elim k [ ]
ready_by_age-mem now (n ∷ ms) m (Memᴰ.head p) h =
    rw (← p) (rw h (insert_by_age-head m (ready_by_age now ms)))
ready_by_age-mem now (n ∷ ms) m (Memᴰ.tail k) h = elim (Bool-cases (is_ready now n)) [
  | inl e ↦ rw e (insert_by_age-tail n m (ready_by_age now ms) (ready_by_age-mem now ms m k h))
  | inr e ↦ rw e (ready_by_age-mem now ms m k h)
]

-- A row of a sorted list is within the limit, or the limit is used up by rows not younger.
pub limit_to-oldest :
    (n : ℕ) (ms : List Message) (m : Message)
    → IsSorted ms
    → Memᴰ m ms
    → Memᴰ m (limit_to n ms)
      ⊎ ((length (limit_to n ms) ≡ n) × All (λ o. o.created_at ≤ m.created_at) (limit_to n ms))
unfolding limit_to
limit_to-oldest zero ms m s k = inr (refl, tt)
limit_to-oldest (suc n) [] m s k = elim k [ ]
limit_to-oldest (suc n) (o ∷ ms) m s (Memᴰ.head p) = inl (Memᴰ.head p)
limit_to-oldest (suc n) (o ∷ ms) m s (Memᴰ.tail k) = elim (limit_to-oldest n ms m s.1 k) [
  | inl l ↦ inl (Memᴰ.tail l)
  | inr (e, h) ↦ inr (ap suc e, (All-mem (λ p. o.created_at ≤ p.created_at) ms s.0 k, h))
]
