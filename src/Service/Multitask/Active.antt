-- ===== src/Service/Multitask/Active.antt =====
-- The active runs of a thread after a strategy was applied.
use duragraph.Base.{
  ℕ, ◌≡◌, refl, sym, ap, ◌∙◌, true, false, Option, none, some, List, [], ◌∷◌, String, All,
  Bool-cases, inl, inr, if◌then◌else◌, leb,
}
use mathlib.Core.List.{Memᴰ}
use duragraph.Base.Text.{◌=ₛ◌, =ₛ_iff}
use duragraph.Base.Dict.{Dict, lookup}
use duragraph.Base.Errors.{ok}
use duragraph.Run.{Run, cancel}
use duragraph.Run.Statuses.{cancelled, is_terminal, can_transition_to}
use duragraph.Run.Load.{RunData, status_of_data, reconstruct_from_data}
use duragraph.Service.{World, ServiceError, accepted, store}
use duragraph.Persistence.Loaded.{IsStored, stored_db, loaded_version, find_by_id-IsStored}
use duragraph.Service.Reports.{store_changed, accepted-none}
use duragraph.Service.Multitask.{
  is_active_status, is_active_in, insert_newest, find_active_by_thread_id, cancel_loaded,
  cancel_run,
}

active_cancellable :
    (s : String)
    → is_active_status s ≡ true
    → (is_terminal (status_of_data s) ≡ false)
      × (can_transition_to (status_of_data s) cancelled ≡ true)
unfolding is_active_status status_of_data can_transition_to is_terminal
active_cancellable s h = elim (Bool-cases (s =ₛ "queued")) [
  | inl e ↦ rw ((=ₛ_iff s "queued").0 e) (refl, refl)
  | inr e ↦ elim (Bool-cases (s =ₛ "in_progress")) [
    | inl f ↦ rw ((=ₛ_iff s "in_progress").0 f) (refl, refl)
    | inr f ↦ rw ((=ₛ_iff s "requires_action").0 (cc (h, e, f))) (refl, refl)
  ]
]

-- The row after the cancellation.
pub cancelled_run :
    (now : ℕ) (d : RunData)
    → is_active_status d.status ≡ true
    → let a = (cancel now "cancelled by user" (reconstruct_from_data d)).0 in
      ((cancel now "cancelled by user" (reconstruct_from_data d)).1 ≡ none)
      × (a.id ≡ d.id)
      × (a.version ≡ (reconstruct_from_data d).version)
      × (a.status ≡ cancelled)
unfolding cancel reconstruct_from_data
cancelled_run now d h = rw ((active_cancellable d.status h).1) (refl, refl, refl, refl)

loaded_status : (d : RunData) → (reconstruct_from_data d).status ≡ status_of_data d.status
unfolding reconstruct_from_data
loaded_status d = refl

loaded_id : (d : RunData) → (reconstruct_from_data d).id ≡ d.id
unfolding reconstruct_from_data
loaded_id d = refl

cancel_open :
    (uuid : ℕ → String) (sid : String) (now : ℕ) (w : World) (r : Run)
    → is_terminal r.status ≡ false
    → cancel_loaded uuid sid now w (ok r)
      ≡ accepted (cancel now "cancelled by user" r) w (λ r'. store uuid sid r' w)
cancel_open uuid sid now w r e = rw e refl

pub cancel_done :
    (uuid : ℕ → String) (sid : String) (now : ℕ) (d : RunData) (w : World)
    → IsStored d.id d w.db
    → is_active_status d.status ≡ true
    → (cancel_run uuid sid now d.id w).0 ≡ record w {
      db = stored_db uuid sid (cancel now "cancelled by user" (reconstruct_from_data d)).0 d w.db;
    }
unfolding cancel_run
cancel_done uuid sid now d w h a =
    let r = reconstruct_from_data d in
    let c = cancelled_run now d a in
    let a' = (cancel now "cancelled by user" r).0 in
    ap (λ (o : World × Option ServiceError). o.0)
      (ap (cancel_loaded uuid sid now w) (find_by_id-IsStored d.id d w.db h)
        ∙ (cancel_open uuid sid now w r
              (ap is_terminal (loaded_status d) ∙ (active_cancellable d.status a).0)
            ∙ (accepted-none (cancel now "cancelled by user" r) w (λ r'. store uuid sid r' w) c.0
                ∙ store_changed uuid sid a' d.id d w h c.1 (c.2 ∙ loaded_version d h.positive))))

past :
    (d e f : RunData) (es rest : List RunData)
    → (Memᴰ e (d ∷ es) → Memᴰ e rest)
    → Memᴰ e (d ∷ f ∷ es)
    → Memᴰ e (f ∷ rest)
past d e f es rest h (Memᴰ.head p) = Memᴰ.tail (h (Memᴰ.head p))
past d e f es rest h (Memᴰ.tail (Memᴰ.head q)) = Memᴰ.head q
past d e f es rest h (Memᴰ.tail (Memᴰ.tail n)) = Memᴰ.tail (h (Memᴰ.tail n))

insert_newest-mem :
    (d e : RunData) (es : List RunData) → Memᴰ e (d ∷ es) → Memᴰ e (insert_newest d es)
unfolding insert_newest
insert_newest-mem d e [] m = m
insert_newest-mem d e (f ∷ es) m = elim (Bool-cases (leb f.created_at d.created_at)) [
  | inl k ↦ rw k m
  | inr k ↦ rw k (past d e f es (insert_newest d es) (insert_newest-mem d e es) m)
]

insert_newest-All :
    (P : RunData → Type 0) (d : RunData) (es : List RunData)
    → P d
    → All P es
    → All P (insert_newest d es)
unfolding insert_newest
insert_newest-All P d [] h k = (h, tt)
insert_newest-All P d (e ∷ es) h k = elim (Bool-cases (leb e.created_at d.created_at)) [
  | inl x ↦ rw x (h, k)
  | inr x ↦ rw x (k.0, insert_newest-All P d es h k.1)
]

-- The runs that are listed are those rows of the table that are active.
kept :
    (thread : String) (d e : RunData) (rest : List RunData)
    → Memᴰ e rest
    → Memᴰ e (if is_active_in thread d then insert_newest d rest else rest)
kept thread d e rest m = elim (Bool-cases (is_active_in thread d)) [
  | inl x ↦ rw x (insert_newest-mem d e rest (Memᴰ.tail m))
  | inr x ↦ rw x m
]

added :
    (thread : String) (d e : RunData) (rest : List RunData)
    → d ≡ e
    → is_active_in thread e ≡ true
    → Memᴰ e (if is_active_in thread d then insert_newest d rest else rest)
added thread d e rest p a =
    let x : is_active_in thread d ≡ true = ap (is_active_in thread) p ∙ a in
    rw x (insert_newest-mem d e rest (Memᴰ.head (sym p)))

pub lookup-listed :
    (thread k : String) (e : RunData) (ds : Dict RunData)
    → lookup k ds ≡ some e
    → is_active_in thread e ≡ true
    → Memᴰ e (find_active_by_thread_id thread ds)
unfolding lookup find_active_by_thread_id
lookup-listed thread k e [] h a = cc
lookup-listed thread k e ((j, d) ∷ ds) h a =
    let rest = find_active_by_thread_id thread ds in
    elim (Bool-cases (j =ₛ k)) [
      | inl x ↦ added thread d e rest (cc (rw x at h)) a
      | inr x ↦ kept thread d e rest (lookup-listed thread k e ds (rw x at h) a)
    ]

pub listed-All :
    (P : RunData → Type 0) (thread : String) (ds : Dict RunData)
    → All (λ (x : String × RunData). P x.1) ds
    → All (λ d. P d × (is_active_in thread d ≡ true)) (find_active_by_thread_id thread ds)
unfolding find_active_by_thread_id
listed-All P thread [] h = tt
listed-All P thread ((j, d) ∷ ds) h = elim (Bool-cases (is_active_in thread d)) [
  | inl x ↦ rw x (
      insert_newest-All (λ d. P d × (is_active_in thread d ≡ true)) d
        (find_active_by_thread_id thread ds) (h.0, x) (listed-All P thread ds h.1))
  | inr x ↦ rw x (listed-All P thread ds h.1)
]
