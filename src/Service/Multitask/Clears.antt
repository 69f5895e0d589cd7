-- ===== src/Service/Multitask/Clears.antt =====
-- A run that may proceed finds no active run in its thread.
use duragraph.Base.{
  ℕ, ◌≤◌, ◌≡◌, refl, sym, ap, ◌∙◌, true, false, some, List, [], ◌∷◌, String, arith, All, Bool-cases,
  inl, inr, length,
}
use mathlib.Core.List.{Memᴰ}
use mathlib.Core.Path.{subst}
use duragraph.Base.Text.{◌=ₛ◌, =ₛ_iff}
use duragraph.Base.Dict.{Dict, lookup, insert, lookup-insert}
use duragraph.Run.{Run, cancel, increment_version}
use duragraph.Run.Statuses.{to_string}
use duragraph.Run.Load.{RunData, reconstruct_from_data}
use duragraph.Persistence.{updated_row}
use duragraph.Persistence.Writes.{runs-save_events}
use duragraph.Task.Selection.{All-map}
use duragraph.Service.{World}
use duragraph.Persistence.Loaded.{IsStored}
use duragraph.Service.Multitask.Active.{cancel_done, lookup-listed, listed-All, cancelled_run}
use duragraph.Service.Multitask.{
  is_active_status, is_active_in, find_active_by_thread_id, cancel_run, cancel_existing, act,
  refuse_run, check_multitask_strategy, apply_multitask_strategy,
}

-- Every row of the table is found by its key, the id of its run, which is not empty.
abbrev pub Keyed : World → Type 0
Keyed w = All (λ (x : String × RunData). IsStored x.0 x.1 w.db × ((x.0 =ₛ "") ≡ false)) w.db.runs

status_after :
    (r : Run) (d : RunData) → (updated_row (increment_version r) d).status ≡ to_string r.status
unfolding updated_row increment_version
status_after r d = refl

lookup-key :
    (k : String) (e : RunData) (ds : Dict RunData)
    → All (λ (x : String × RunData). x.1.id ≡ x.0) ds
    → lookup k ds ≡ some e
    → e.id ≡ k
unfolding lookup
lookup-key k e [] h f = cc
lookup-key k e ((j, d) ∷ ds) h f = elim (Bool-cases (j =ₛ k)) [
  | inl x ↦ let s : d ≡ e = cc (rw x at f) in let t : j ≡ k = (=ₛ_iff j k).0 x in cc (s, t, h.0)
  | inr x ↦ lookup-key k e ds h.1 (rw x at f)
]

inactive_after :
    (thread : String) (e : RunData) → e.status ≡ "cancelled" → is_active_in thread e ≡ false
unfolding is_active_in is_active_status
inactive_after thread e h = rw h (ground arith)

active_status :
    (thread : String) (d : RunData)
    → is_active_in thread d ≡ true
    → is_active_status d.status ≡ true
unfolding is_active_in
active_status thread d h = ground (arith, h)

-- What a row has to be for its run to be cancelled.
abbrev Cancellable : World → RunData → Type 0
Cancellable w d = IsStored d.id d w.db × ((d.id =ₛ "") ≡ false)

rows-Cancellable :
    (w : World) → Keyed w → All (λ (x : String × RunData). Cancellable w x.1) w.db.runs
rows-Cancellable w h =
    All-map (λ (x : String × RunData). IsStored x.0 x.1 w.db × ((x.0 =ₛ "") ≡ false))
      (λ (x : String × RunData). Cancellable w x.1) w.db.runs
      (λ x c.
        (subst (λ i. IsStored i x.1 w.db) (sym c.0.named) c.0, ap (λ i. i =ₛ "") c.0.named ∙ c.1))
      h

-- An answer other than a refusal, for a thread with an active run.
act_cancels :
    (uuid : ℕ → String) (sid : String) (now : ℕ) (strategy : String) (w : World) (d : RunData)
    (ds : List RunData)
    → strategy =ₛ "enqueue" ≡ false
    → (act uuid sid now w (check_multitask_strategy strategy (d ∷ ds))).0 ≡ true
    → (act uuid sid now w (check_multitask_strategy strategy (d ∷ ds))).2
      ≡ cancel_existing uuid sid now d.id w
unfolding act check_multitask_strategy refuse_run
act_cancels uuid sid now strategy w d ds n y = elim (Bool-cases (strategy =ₛ "interrupt")) [
  | inl a ↦ rw a refl
  | inr a ↦ elim (Bool-cases (strategy =ₛ "rollback")) [
    | inl b ↦ rw a (rw b refl)
    | inr b ↦ cc (rw n at (rw b at (rw a at y)))
  ]
]

existing_cancelled :
    (uuid : ℕ → String) (sid : String) (now : ℕ) (id : String) (w : World)
    → (id =ₛ "") ≡ false
    → cancel_existing uuid sid now id w ≡ (cancel_run uuid sid now id w).0
unfolding cancel_existing
existing_cancelled uuid sid now id w e = rw e refl

only : (e d : RunData) → Memᴰ e (d ∷ []) → e ≡ d
only e d (Memᴰ.head p) = p
only e d (Memᴰ.tail m) = elim m [ ]

-- The row that is found after a run of the thread was cancelled, the only one that was active.
after_cancel :
    (uuid : ℕ → String) (sid : String) (now : ℕ) (thread : String) (d : RunData) (w : World)
    → Keyed w
    → Cancellable w d
    → is_active_in thread d ≡ true
    → (d ∷ []) ≡ find_active_by_thread_id thread w.db.runs
    → (k : String) (e : RunData) → lookup k (cancel_existing uuid sid now d.id w).db.runs ≡ some e
    → is_active_in thread e ≡ false
unfolding to_string
after_cancel uuid sid now thread d w key c a l k e f =
    let s = active_status thread d a in
    let r = (cancel now "cancelled by user" (reconstruct_from_data d)).0 in
    let new = updated_row (increment_version r) d in
    let g : lookup k (insert r.id new w.db.runs) ≡ some e =
      ap (lookup k) (sym (runs-save_events uuid sid r.id r.events _))
      ∙ (ap (λ (v : World). lookup k v.db.runs)
            (sym (existing_cancelled uuid sid now d.id w c.1 ∙ cancel_done uuid sid now d w c.0 s))
          ∙ f) in
    let split = sym (lookup-insert r.id k new w.db.runs) ∙ g in
    elim (Bool-cases (r.id =ₛ k)) [
      | inl x ↦
          let same : new ≡ e = cc (rw x at split) in
          inactive_after thread e (
            ap (λ (o : RunData). o.status) (sym same)
            ∙ (status_after r d ∙ ap to_string (cancelled_run now d s).3))
      | inr x ↦ elim (Bool-cases (is_active_in thread e)) [
        | inr y ↦ y
        | inl y ↦
            let found : lookup k w.db.runs ≡ some e = rw x at split in
            let m : Memᴰ e (d ∷ []) =
              subst (λ es. Memᴰ e es) (sym l) (lookup-listed thread k e w.db.runs found y) in
            let e_id : e.id ≡ k =
              lookup-key k e w.db.runs
                (All-map (λ (x : String × RunData). IsStored x.0 x.1 w.db × ((x.0 =ₛ "") ≡ false))
                  (λ (x : String × RunData). x.1.id ≡ x.0) w.db.runs (λ x c. c.0.named) key)
                found in
            let r_id : r.id ≡ k =
              (cancelled_run now d s).1 ∙ (ap (λ (o : RunData). o.id) (sym (only e d m)) ∙ e_id) in
            cc (x, (=ₛ_iff r.id k).1 r_id)
      ]
    ]

nothing_active :
    (thread k : String) (e : RunData) (ds : Dict RunData)
    → [] ≡ find_active_by_thread_id thread ds
    → lookup k ds ≡ some e
    → is_active_in thread e ≡ false
nothing_active thread k e ds l f = elim (Bool-cases (is_active_in thread e)) [
  | inr y ↦ y
  | inl y ↦
      let m : Memᴰ e [] = subst (λ es. Memᴰ e es) (sym l) (lookup-listed thread k e ds f y) in
      elim m [ ]
]

cleared :
    (uuid : ℕ → String) (sid : String) (now : ℕ) (thread strategy : String) (w : World)
    (ds : List RunData)
    → ds ≡ find_active_by_thread_id thread w.db.runs
    → Keyed w
    → strategy =ₛ "enqueue" ≡ false
    → length ds ≤ 1
    → (act uuid sid now w (check_multitask_strategy strategy ds)).0 ≡ true
    → (k : String) (e : RunData)
    → lookup k (act uuid sid now w (check_multitask_strategy strategy ds)).2.db.runs ≡ some e
    → is_active_in thread e ≡ false
unfolding act check_multitask_strategy
cleared uuid sid now thread strategy w [] l key n few y k e f =
    nothing_active thread k e w.db.runs l f
cleared uuid sid now thread strategy w (d ∷ []) l key n few y k e f =
    let c =
      subst (λ es. All (λ x. Cancellable w x × (is_active_in thread x ≡ true)) es) (sym l)
        (listed-All (Cancellable w) thread w.db.runs (rows-Cancellable w key)) in
    after_cancel uuid sid now thread d w key c.0.0 c.0.1 l k e (
      ap (λ (v : World). lookup k v.db.runs) (sym (act_cancels uuid sid now strategy w d [] n y))
      ∙ f)
cleared uuid sid now thread strategy w (d ∷ d' ∷ ds) l key n few y k e f =
    absurd (omega (arith, few))

-- A thread has at most one active run. Unless the strategy is to enqueue, when
-- `ApplyMultitaskStrategy` lets the new run proceed, then no row of the thread that is found
-- afterwards is active.
pub apply_multitask_strategy_lem :
    (uuid : ℕ → String) (sid : String) (now : ℕ) (thread strategy : String) (w : World)
    → Keyed w
    → strategy =ₛ "enqueue" ≡ false
    → length (find_active_by_thread_id thread w.db.runs) ≤ 1
    → (apply_multitask_strategy uuid sid now thread strategy w).0 ≡ true
    → (k : String) (e : RunData)
    → lookup k (apply_multitask_strategy uuid sid now thread strategy w).2.db.runs ≡ some e
    → is_active_in thread e ≡ false
unfolding apply_multitask_strategy
apply_multitask_strategy_lem uuid sid now thread strategy w key n few y k e f =
    cleared uuid sid now thread strategy w (find_active_by_thread_id thread w.db.runs) refl key n
      few y k e f
