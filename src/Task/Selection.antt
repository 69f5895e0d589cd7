-- ===== src/Task/Selection.antt =====
-- Which rows a claim takes.
use duragraph.Base.{
  ℕ, zero, suc, ◌≡◌, ◌≢◌, refl, sym, ap, ◌∙◌, true, List, [], ◌∷◌, String, arith, All, Bool-cases,
  inl, inr, leb, ◌==◌,
}
use mathlib.Core.List.{Memᴰ}
use mathlib.Core.Path.{subst}
use duragraph.Task.{Task, has_id, is_claimable, insert_by_age, by_age, limit_to, ids, claim_ids}

-- Rows of different ids.
abbrev pub Distinct : List ℕ → Type 0
Distinct [] = Unit
Distinct (i ∷ is) = All (λ j. j ≢ i) is × Distinct is

pub All-mem {ℓ κ} : {A : Type ℓ} (P : A → Type κ) (xs : List A) {x : A} → All P xs → Memᴰ x xs → P x
All-mem P [] h m = elim m [ ]
All-mem P (y ∷ xs) h (Memᴰ.head e) = subst P (sym e) h.0
All-mem P (y ∷ xs) h (Memᴰ.tail m) = All-mem P xs h.1 m

pub All-map {ℓ κ} :
    {A : Type ℓ} (P Q : A → Type κ) (xs : List A) → ((x : A) → P x → Q x) → All P xs → All Q xs
All-map P Q [] f h = tt
All-map P Q (x ∷ xs) f h = (f x h.0, All-map P Q xs f h.1)

pub All-self {ℓ} : {A : Type ℓ} (xs : List A) → All (λ x. Memᴰ x xs) xs
All-self [] = tt
All-self (x ∷ xs) = (
  Memᴰ.head refl,
  All-map (λ y. Memᴰ y xs) (λ y. Memᴰ y (x ∷ xs)) xs (λ y m. Memᴰ.tail m) (All-self xs),
)

pub All-both {ℓ κ} :
    {A : Type ℓ} (P Q : A → Type κ) (xs : List A) → All P xs → All Q xs → All (λ x. P x × Q x) xs
All-both P Q [] h k = tt
All-both P Q (x ∷ xs) h k = ((h.0, k.0), All-both P Q xs h.1 k.1)

mem-ids : (ts : List Task) (t : Task) → Memᴰ t ts → Memᴰ t.id (ids ts)
mem-ids (u ∷ ts) t (Memᴰ.head e) = Memᴰ.head (ap (λ (t : Task). t.id) e)
mem-ids (u ∷ ts) t (Memᴰ.tail m) = Memᴰ.tail (mem-ids ts t m)
mem-ids [] t m = elim m [ ]

-- The id is a key.
pub unique :
    (ts : List Task) (t u : Task) → Distinct (ids ts) → Memᴰ t ts → Memᴰ u ts → t.id ≡ u.id → t ≡ u
unique [] t u d m n e = elim m [ ]
unique (x ∷ ts) t u d (Memᴰ.head p) (Memᴰ.head q) e = p ∙ sym q
unique (x ∷ ts) t u d (Memᴰ.head p) (Memᴰ.tail n) e =
    absurd
      (All-mem (λ j. j ≢ x.id) (ids ts) d.0 (mem-ids ts u n) (sym e ∙ ap (λ (t : Task). t.id) p))
unique (x ∷ ts) t u d (Memᴰ.tail m) (Memᴰ.head q) e =
    absurd (All-mem (λ j. j ≢ x.id) (ids ts) d.0 (mem-ids ts t m) (e ∙ ap (λ (t : Task). t.id) q))
unique (x ∷ ts) t u d (Memᴰ.tail m) (Memᴰ.tail n) e = unique ts t u d.1 m n e

pub insert_by_age-All :
    (P : Task → Type 0) (t : Task) (us : List Task) → P t → All P us → All P (insert_by_age t us)
unfolding insert_by_age
insert_by_age-All P t [] h k = (h, tt)
insert_by_age-All P t (u ∷ us) h k = elim (Bool-cases (leb t.created_at u.created_at)) [
  | inl e ↦ rw e (h, k)
  | inr e ↦ rw e (k.0, insert_by_age-All P t us h k.1)
]

-- A selected row is a claimable row of the table.
abbrev pub IsFrom : List String → List ℕ → List Task → Task → Type 0
IsFrom graphs locked ts t = Memᴰ t ts × (is_claimable graphs locked t ≡ true)

pub by_age-IsFrom :
    (graphs : List String) (locked : List ℕ) (ts : List Task)
    → All (IsFrom graphs locked ts) (by_age graphs locked ts)
unfolding by_age
by_age-IsFrom graphs locked [] = tt
by_age-IsFrom graphs locked (t ∷ ts) =
    let rest =
      All-map (IsFrom graphs locked ts) (IsFrom graphs locked (t ∷ ts)) (by_age graphs locked ts)
        (λ u h. (Memᴰ.tail h.0, h.1)) (by_age-IsFrom graphs locked ts) in
    elim (Bool-cases (is_claimable graphs locked t)) [
      | inl e ↦ rw e (
          insert_by_age-All (IsFrom graphs locked (t ∷ ts)) t (by_age graphs locked ts)
            (Memᴰ.head refl, e) rest)
      | inr e ↦ rw e rest
    ]

pub limit_to-All : (P : Task → Type 0) (n : ℕ) (ts : List Task) → All P ts → All P (limit_to n ts)
unfolding limit_to
limit_to-All P zero ts h = tt
limit_to-All P (suc n) [] h = tt
limit_to-All P (suc n) (t ∷ ts) h = (h.0, limit_to-All P n ts h.1)

pub has_id-All :
    (P : Task → Type 0) (n : ℕ) (ts : List Task)
    → All P ts
    → has_id n (ids ts) ≡ true
    → (t : Task) × P t × (t.id ≡ n)
unfolding has_id
has_id-All P n [] h e = cc
has_id-All P n (t ∷ ts) h e = elim (Bool-cases (t.id == n)) [
  | inl k ↦ (t, h.0, ground arith)
  | inr k ↦ has_id-All P n ts h.1 (rw k at e)
]

-- A row with an id that is taken is claimable.
pub taken_claimable :
    (graphs : List String) (locked : List ℕ) (n : ℕ) (ts : List Task) (t : Task)
    → Distinct (ids ts)
    → Memᴰ t ts
    → has_id t.id (claim_ids graphs locked n ts) ≡ true
    → is_claimable graphs locked t ≡ true
unfolding claim_ids
taken_claimable graphs locked n ts t d m e =
    let (u, (f, c), i) =
      has_id-All (IsFrom graphs locked ts) t.id (limit_to n (by_age graphs locked ts))
        (limit_to-All (IsFrom graphs locked ts) n (by_age graphs locked ts)
          (by_age-IsFrom graphs locked ts))
        e in
    subst (λ (x : Task). is_claimable graphs locked x ≡ true) (unique ts u t d f m i) c
