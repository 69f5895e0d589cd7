-- ===== src/Outbox/Batches.antt =====
-- Which rows a round of the relay tries.
use duragraph.Base.{
  ℕ, zero, suc, ◌≤◌, ◌≡◌, ◌≢◌, refl, sym, ap, ◌∙◌, Bool, true, false, ◌||◌, Option, List, [], ◌∷◌,
  String, arith, All, Bool-cases, inl, inr, if◌then◌else◌, ◌==◌, map, leb, length,
}
use mathlib.Core.List.{Memᴰ}
use mathlib.Core.Path.{subst}
use duragraph.Task.Selection.{Distinct, All-mem, All-map, All-self}
use duragraph.Outbox.{
  Message, is_ready, insert_by_age, ready_by_age, limit_to, get_unpublished, process_outbox,
}
use duragraph.Outbox.Order.{insert_by_age-All}
use duragraph.Outbox.Relay.{ids, tried, tried_all, map-tried_all, tried_all_none, tried_all_one}

-- Rows of different ids, without the list of the ids.
abbrev Keyed : List Message → Type 0
Keyed [] = Unit
Keyed (m ∷ ms) = All (λ n. n.id ≢ m.id) ms × Keyed ms

All-ids : (i : ℕ) (ms : List Message) → All (λ n. n.id ≢ i) ms → All (λ j. j ≢ i) (ids ms)
All-ids i [] h = tt
All-ids i (m ∷ ms) h = (h.0, All-ids i ms h.1)

ids-All : (i : ℕ) (ms : List Message) → All (λ j. j ≢ i) (ids ms) → All (λ n. n.id ≢ i) ms
ids-All i [] h = tt
ids-All i (m ∷ ms) h = (h.0, ids-All i ms h.1)

pub Keyed-ids : (ms : List Message) → Distinct (ids ms) → Keyed ms
Keyed-ids [] d = tt
Keyed-ids (m ∷ ms) d = (ids-All m.id ms d.0, Keyed-ids ms d.1)

ids-Keyed : (ms : List Message) → Keyed ms → Distinct (ids ms)
ids-Keyed [] d = tt
ids-Keyed (m ∷ ms) d = (All-ids m.id ms d.0, ids-Keyed ms d.1)

insert_by_age-Keyed :
    (m : Message) (ns : List Message)
    → All (λ n. n.id ≢ m.id) ns
    → Keyed ns
    → Keyed (insert_by_age m ns)
unfolding insert_by_age
insert_by_age-Keyed m [] h k = (tt, tt)
insert_by_age-Keyed m (n ∷ ns) h k = elim (Bool-cases (leb m.created_at n.created_at)) [
  | inl e ↦ rw e (h, k)
  | inr e ↦ rw e (
    insert_by_age-All (λ o. o.id ≢ n.id) m ns (λ x. h.0 (sym x)) k.0,
    insert_by_age-Keyed m ns h.1 k.1,
  )
]

ready_by_age-All :
    (P : Message → Type 0) (now : ℕ) (ms : List Message)
    → All P ms
    → All (λ m. P m × (is_ready now m ≡ true)) (ready_by_age now ms)
unfolding ready_by_age
ready_by_age-All P now [] h = tt
ready_by_age-All P now (m ∷ ms) h = elim (Bool-cases (is_ready now m)) [
  | inl e ↦ rw e (
      insert_by_age-All (λ m. P m × (is_ready now m ≡ true)) m (ready_by_age now ms) (h.0, e)
        (ready_by_age-All P now ms h.1))
  | inr e ↦ rw e (ready_by_age-All P now ms h.1)
]

ready_by_age-Keyed : (now : ℕ) (ms : List Message) → Keyed ms → Keyed (ready_by_age now ms)
unfolding ready_by_age
ready_by_age-Keyed now [] d = tt
ready_by_age-Keyed now (m ∷ ms) d = elim (Bool-cases (is_ready now m)) [
  | inl e ↦ rw e (
      insert_by_age-Keyed m (ready_by_age now ms)
        (All-map (λ n. (n.id ≢ m.id) × (is_ready now n ≡ true)) (λ n. n.id ≢ m.id)
          (ready_by_age now ms) (λ n h. h.0) (ready_by_age-All (λ n. n.id ≢ m.id) now ms d.0))
        (ready_by_age-Keyed now ms d.1))
  | inr e ↦ rw e (ready_by_age-Keyed now ms d.1)
]

limit_to-All : (P : Message → Type 0) (n : ℕ) (ms : List Message) → All P ms → All P (limit_to n ms)
unfolding limit_to
limit_to-All P zero ms h = tt
limit_to-All P (suc n) [] h = tt
limit_to-All P (suc n) (m ∷ ms) h = (h.0, limit_to-All P n ms h.1)

limit_to-Keyed : (n : ℕ) (ms : List Message) → Keyed ms → Keyed (limit_to n ms)
unfolding limit_to
limit_to-Keyed zero ms d = tt
limit_to-Keyed (suc n) [] d = tt
limit_to-Keyed (suc n) (m ∷ ms) d =
    (limit_to-All (λ o. o.id ≢ m.id) n ms d.0, limit_to-Keyed n ms d.1)

pub length-limit_to : (n : ℕ) (ms : List Message) → length (limit_to n ms) ≤ n
unfolding limit_to
length-limit_to zero ms = omega arith
length-limit_to (suc n) [] = omega arith
length-limit_to (suc n) (m ∷ ms) = omega (arith, length-limit_to n ms)

batch-Keyed : (now limit : ℕ) (ms : List Message) → Keyed ms → Keyed (get_unpublished now limit ms)
unfolding get_unpublished
batch-Keyed now limit ms d =
    limit_to-Keyed limit (ready_by_age now ms) (ready_by_age-Keyed now ms d)

pub batch-All :
    (now limit : ℕ) (ms : List Message)
    → All (λ m. Memᴰ m ms × (is_ready now m ≡ true)) (get_unpublished now limit ms)
unfolding get_unpublished
batch-All now limit ms =
    limit_to-All (λ m. Memᴰ m ms × (is_ready now m ≡ true)) limit (ready_by_age now ms)
      (ready_by_age-All (λ m. Memᴰ m ms) now ms (All-self ms))

pub unique :
    (ms : List Message) (m n : Message) → Keyed ms → Memᴰ m ms → Memᴰ n ms → m.id ≡ n.id → m ≡ n
unique [] m n d k l e = elim k [ ]
unique (x ∷ ms) m n d (Memᴰ.head p) (Memᴰ.head q) e = p ∙ sym q
unique (x ∷ ms) m n d (Memᴰ.head p) (Memᴰ.tail l) e =
    absurd (All-mem (λ o. o.id ≢ x.id) ms d.0 l (sym e ∙ ap (λ (o : Message). o.id) p))
unique (x ∷ ms) m n d (Memᴰ.tail k) (Memᴰ.head q) e =
    absurd (All-mem (λ o. o.id ≢ x.id) ms d.0 k (e ∙ ap (λ (o : Message). o.id) q))
unique (x ∷ ms) m n d (Memᴰ.tail k) (Memᴰ.tail l) e = unique ms m n d.1 k l e

-- Whether a row is tried.
unfoldable pub is_in : ℕ → List Message → Bool
is_in i [] = false
is_in i (m ∷ ms) = m.id == i || is_in i ms

is_in_none : (i : ℕ) (ms : List Message) → is_in i ms ≡ false → All (λ j. j ≢ i) (ids ms)
unfolding is_in
is_in_none i [] h = tt
is_in_none i (m ∷ ms) h =
    ((λ e. absurd (ground (arith, h, e))), is_in_none i ms (ground (arith, h)))

pub is_in_some :
    (i : ℕ) (ms : List Message) → is_in i ms ≡ true → (m : Message) × Memᴰ m ms × (m.id ≡ i)
unfolding is_in
is_in_some i [] h = cc
is_in_some i (m ∷ ms) h = elim (Bool-cases (m.id == i)) [
  | inl e ↦ (m, Memᴰ.head refl, ground arith)
  | inr e ↦ let (n, k, f) = is_in_some i ms (rw e at h) in (n, Memᴰ.tail k, f)
]

pub mem-is_in : (m : Message) (ms : List Message) → Memᴰ m ms → is_in m.id ms ≡ true
unfolding is_in
mem-is_in m [] k = elim k [ ]
mem-is_in m (n ∷ ms) (Memᴰ.head p) =
    let e : n.id ≡ m.id = ap (λ (o : Message). o.id) (sym p) in ground (arith, e)
mem-is_in m (n ∷ ms) (Memᴰ.tail k) = ground (arith, mem-is_in m ms k)

map-congr :
    (f g : Message → Message) (ms : List Message) → All (λ m. f m ≡ g m) ms → map f ms ≡ map g ms
map-congr f g [] h = refl
map-congr f g (m ∷ ms) h = rw h.0 (ap (λ ns. g m ∷ ns) (map-congr f g ms h.1))

-- What a round makes of a row.
abbrev pub relayed : (Message → Option String) → ℕ → List Message → Message → Message
relayed publish now batch m = if is_in m.id batch then tried publish now m m else m

tried_all-relayed :
    (publish : Message → Option String) (now limit : ℕ) (ms : List Message)
    → Keyed ms
    → (m : Message) → Memᴰ m ms
    → let batch = get_unpublished now limit ms in
      tried_all publish now batch m ≡ relayed publish now batch m
tried_all-relayed publish now limit ms d m k =
    let batch = get_unpublished now limit ms in
    elim (Bool-cases (is_in m.id batch)) [
      | inl e ↦
          let (n, l, f) = is_in_some m.id batch e in
          let same : n ≡ m =
            unique ms n m d
              (All-mem (λ m. Memᴰ m ms × (is_ready now m ≡ true)) batch (batch-All now limit ms)
                l).0
              k f in
          rw e (
            tried_all_one publish now batch m (ids-Keyed batch (batch-Keyed now limit ms d))
              (subst (λ (o : Message). Memᴰ o batch) same l))
      | inr e ↦ rw e (tried_all_none publish now batch m (is_in_none m.id batch e))
    ]

pub rows-process_outbox :
    (publish : Message → Option String) (now limit : ℕ) (ms : List Message)
    → Distinct (ids ms)
    → process_outbox publish now limit ms
      ≡ map (relayed publish now (get_unpublished now limit ms)) ms
unfolding process_outbox
rows-process_outbox publish now limit ms d =
    let batch = get_unpublished now limit ms in
    map-tried_all publish now batch ms
    ∙ map-congr (tried_all publish now batch) (relayed publish now batch) ms (
        All-map (λ m. Memᴰ m ms) (λ m. tried_all publish now batch m ≡ relayed publish now batch m)
          ms (λ m k. tried_all-relayed publish now limit ms (Keyed-ids ms d) m k) (All-self ms))
