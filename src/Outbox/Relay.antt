-- ===== src/Outbox/Relay.antt =====
-- One round of the relay.
use duragraph.Base.{
  ℕ, ◌≡◌, ◌≢◌, refl, sym, ap, ◌∙◌, true, Option, none, some, List, [], ◌∷◌, String, arith, All,
  Bool-cases, inl, inr, if◌then◌else◌, ◌==◌, map,
}
use mathlib.Core.List.{Memᴰ}
use mathlib.Core.Path.{subst}
use duragraph.Task.Selection.{Distinct, All-mem}
use duragraph.Outbox.{
  recorded, Message, update_row, published_now, failed_now, mark_as_published, mark_as_failed,
  process, process_all,
}

abbrev pub ids : List Message → List ℕ
ids [] = []
ids (m ∷ ms) = m.id ∷ ids ms

-- What becomes of a row when the message is tried.
abbrev pub outcome : ℕ → Option String → Message → Message
outcome now (some e) m = failed_now now e m
outcome now none m = published_now now m

abbrev pub tried : (Message → Option String) → ℕ → Message → Message → Message
tried publish now b m = outcome now (publish b) m

abbrev tried_if : (Message → Option String) → ℕ → Message → Message → Message
tried_if publish now b m = if m.id == b.id then tried publish now b m else m

map-update_row :
    (id : ℕ) (f : Message → Message) (ms : List Message)
    → update_row id f ms ≡ map (λ m. if m.id == id then f m else m) ms
unfolding update_row
map-update_row id f [] = refl
map-update_row id f (m ∷ ms) =
    ap (λ ns. (if m.id == id then f m else m) ∷ ns) (map-update_row id f ms)

map-recorded :
    (now id : ℕ) (o : Option String) (ms : List Message)
    → recorded now id o ms ≡ map (λ m. if m.id == id then outcome now o m else m) ms
unfolding recorded mark_as_published mark_as_failed
map-recorded now id none ms = map-update_row id (published_now now) ms
map-recorded now id (some e) ms = map-update_row id (failed_now now e) ms

map-process :
    (publish : Message → Option String) (now : ℕ) (b : Message) (ms : List Message)
    → process publish now b ms ≡ map (tried_if publish now b) ms
unfolding process
map-process publish now b ms = map-recorded now b.id (publish b) ms

-- The batch, on one row.
unfoldable pub tried_all : (Message → Option String) → ℕ → List Message → Message → Message
tried_all publish now [] m = m
tried_all publish now (b ∷ batch) m = tried_all publish now batch (tried_if publish now b m)

id-outcome : (now : ℕ) (o : Option String) (m : Message) → (outcome now o m).id ≡ m.id
unfolding failed_now
id-outcome now none m = refl
id-outcome now (some e) m = refl

id-tried_if :
    (publish : Message → Option String) (now : ℕ) (b m : Message)
    → (tried_if publish now b m).id ≡ m.id
unfolding failed_now
id-tried_if publish now b m = elim (Bool-cases (m.id == b.id)) [
  | inl e ↦ rw e (id-outcome now (publish b) m)
  | inr e ↦ rw e refl
]

map_same : (ms : List Message) → map (λ m. m) ms ≡ ms
map_same [] = refl
map_same (m ∷ ms) = ap (λ ns. m ∷ ns) (map_same ms)

map-map : (f g : Message → Message) (ms : List Message) → map f (map g ms) ≡ map (λ m. f (g m)) ms
map-map f g [] = refl
map-map f g (m ∷ ms) = ap (λ ns. f (g m) ∷ ns) (map-map f g ms)

same_tried :
    (publish : Message → Option String) (now : ℕ) (m : Message)
    → tried_if publish now m m ≡ tried publish now m m
same_tried publish now m = let e : m.id == m.id ≡ true = ground arith in rw e refl

not_tried :
    (publish : Message → Option String) (now : ℕ) (b m : Message)
    → b.id ≢ m.id
    → tried_if publish now b m ≡ m
not_tried publish now b m h = elim (Bool-cases (m.id == b.id)) [
  | inl e ↦ absurd (h (ground arith))
  | inr e ↦ rw e refl
]

is_tried :
    (publish : Message → Option String) (now : ℕ) (b m : Message)
    → m ≡ b
    → tried_if publish now b m ≡ tried publish now m m
is_tried publish now b m e =
    subst (λ (c : Message). tried_if publish now c m ≡ tried publish now m m) e
      (same_tried publish now m)

pub map-tried_all :
    (publish : Message → Option String) (now : ℕ) (batch ms : List Message)
    → process_all publish now batch ms ≡ map (tried_all publish now batch) ms
unfolding process_all tried_all
map-tried_all publish now [] ms = sym (map_same ms)
map-tried_all publish now (b ∷ batch) ms =
    ap (process_all publish now batch) (map-process publish now b ms)
    ∙ (map-tried_all publish now batch _
        ∙ map-map (tried_all publish now batch) (tried_if publish now b) ms)

pub tried_all_none :
    (publish : Message → Option String) (now : ℕ) (batch : List Message) (m : Message)
    → All (λ i. i ≢ m.id) (ids batch)
    → tried_all publish now batch m ≡ m
unfolding tried_all
tried_all_none publish now [] m h = refl
tried_all_none publish now (b ∷ batch) m h =
    ap (tried_all publish now batch) (not_tried publish now b m h.0)
    ∙ tried_all_none publish now batch m h.1

pub mem-ids : (ms : List Message) (m : Message) → Memᴰ m ms → Memᴰ m.id (ids ms)
mem-ids (n ∷ ms) m (Memᴰ.head e) = Memᴰ.head (ap (λ (m : Message). m.id) e)
mem-ids (n ∷ ms) m (Memᴰ.tail k) = Memᴰ.tail (mem-ids ms m k)
mem-ids [] m k = elim k [ ]

pub tried_all_one :
    (publish : Message → Option String) (now : ℕ) (batch : List Message) (m : Message)
    → Distinct (ids batch)
    → Memᴰ m batch
    → tried_all publish now batch m ≡ tried publish now m m
unfolding tried_all
tried_all_one publish now [] m d k = elim k [ ]
tried_all_one publish now (b ∷ batch) m d (Memᴰ.head e) =
    ap (tried_all publish now batch) (is_tried publish now b m e)
    ∙ tried_all_none publish now batch (tried publish now m m) (
        subst (λ i. All (λ j. j ≢ i) (ids batch))
          (ap (λ (n : Message). n.id) (sym e) ∙ sym (id-outcome now (publish m) m)) d.0)
tried_all_one publish now (b ∷ batch) m d (Memᴰ.tail k) =
    ap (tried_all publish now batch) (
      not_tried publish now b m
        (λ e. All-mem (λ j. j ≢ b.id) (ids batch) d.0 (mem-ids batch m k) (sym e)))
    ∙ tried_all_one publish now batch m d.1 k
