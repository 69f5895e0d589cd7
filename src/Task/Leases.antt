-- ===== src/Task/Leases.antt =====
-- The expired leases that `FindExpiredLeases` finds.
use duragraph.Base.{ℕ, ◌≡◌, refl, true, List, [], ◌∷◌, arith, All, Bool-cases, inl, inr, leb}
use mathlib.Core.List.{Memᴰ}
use duragraph.Task.{Task, is_expired, find_expired_leases, insert_by_lease, lease_of, has_id, ids}
use duragraph.Task.Selection.{All-map}

insert_by_lease-All :
    (P : Task → Type 0) (t : Task) (us : List Task) → P t → All P us → All P (insert_by_lease t us)
unfolding insert_by_lease
insert_by_lease-All P t [] h k = (h, tt)
insert_by_lease-All P t (u ∷ us) h k = elim (Bool-cases (leb (lease_of t) (lease_of u))) [
  | inl e ↦ rw e (h, k)
  | inr e ↦ rw e (k.0, insert_by_lease-All P t us h k.1)
]

insert_by_lease-head : (t : Task) (us : List Task) → Memᴰ t (insert_by_lease t us)
unfolding insert_by_lease
insert_by_lease-head t [] = Memᴰ.head refl
insert_by_lease-head t (u ∷ us) = elim (Bool-cases (leb (lease_of t) (lease_of u))) [
  | inl e ↦ rw e (Memᴰ.head refl)
  | inr e ↦ rw e (Memᴰ.tail (insert_by_lease-head t us))
]

insert_by_lease-tail : (t u : Task) (us : List Task) → Memᴰ u us → Memᴰ u (insert_by_lease t us)
unfolding insert_by_lease
insert_by_lease-tail t u (v ∷ us) (Memᴰ.head p) =
    elim (Bool-cases (leb (lease_of t) (lease_of v))) [
      | inl e ↦ rw e (Memᴰ.tail (Memᴰ.head p))
      | inr e ↦ rw e (Memᴰ.head p)
    ]
insert_by_lease-tail t u (v ∷ us) (Memᴰ.tail n) =
    elim (Bool-cases (leb (lease_of t) (lease_of v))) [
      | inl e ↦ rw e (Memᴰ.tail (Memᴰ.tail n))
      | inr e ↦ rw e (Memᴰ.tail (insert_by_lease-tail t u us n))
    ]
insert_by_lease-tail t u [] m = elim m [ ]

-- Only expired rows of the table are found,
pub expired :
    (now : ℕ) (ts : List Task)
    → All (λ t. Memᴰ t ts × (is_expired now t ≡ true)) (find_expired_leases now ts)
unfolding find_expired_leases
expired now [] = tt
expired now (t ∷ ts) =
    let P = λ (u : Task). Memᴰ u (t ∷ ts) × (is_expired now u ≡ true) in
    let rest =
      All-map (λ u. Memᴰ u ts × (is_expired now u ≡ true)) P (find_expired_leases now ts)
        (λ u h. (Memᴰ.tail h.0, h.1)) (expired now ts) in
    elim (Bool-cases (is_expired now t)) [
      | inl e ↦ rw e (insert_by_lease-All P t (find_expired_leases now ts) (Memᴰ.head refl, e) rest)
      | inr e ↦ rw e rest
    ]

-- and all of them.
pub expired-mem :
    (now : ℕ) (ts : List Task) (t : Task)
    → Memᴰ t ts
    → is_expired now t ≡ true
    → Memᴰ t (find_expired_leases now ts)
unfolding find_expired_leases
expired-mem now [] t m c = elim m [ ]
expired-mem now (u ∷ ts) t (Memᴰ.head p) c =
    rw (← p) (rw c (insert_by_lease-head t (find_expired_leases now ts)))
expired-mem now (u ∷ ts) t (Memᴰ.tail m) c = elim (Bool-cases (is_expired now u)) [
  | inl e ↦ rw e (insert_by_lease-tail u t (find_expired_leases now ts) (expired-mem now ts t m c))
  | inr e ↦ rw e (expired-mem now ts t m c)
]

pub mem-has_id : (ts : List Task) (t : Task) → Memᴰ t ts → has_id t.id (ids ts) ≡ true
unfolding has_id
mem-has_id (u ∷ ts) t (Memᴰ.head e) = rw e (ground arith)
mem-has_id (u ∷ ts) t (Memᴰ.tail m) = ground (arith, mem-has_id ts t m)
mem-has_id [] t m = elim m [ ]
