-- ===== src/Service/Execute/Local.antt =====
-- Executions that no worker takes.
use duragraph.Base.{ℕ, ◌≡◌, refl, ap, ◌∙◌, Bool, true, String, Bool-cases, inl, inr, if◌then◌else◌}
use duragraph.Base.Text.{◌=ₛ◌}
use duragraph.Base.Errors.{Result, ok, err}
use duragraph.Run.{Run}
use duragraph.Run.Load.{RunData, reconstruct_from_data}
use duragraph.Persistence.Loaded.{IsStored, find_by_id-IsStored}
use duragraph.Service.Dispatch.{dispatch_run}
use duragraph.Service.Execute.{
  World, Services, execute_local, dispatched, service_world, execute_loaded, execute_run,
}
use duragraph.Task.{Table}

-- No worker takes the run.
abbrev pub no_worker : Result String → Bool
no_worker (err e) = true
no_worker (ok worker) = worker =ₛ ""

abbrev pub WorksAlone : Services → ℕ → String → World → Type 0
WorksAlone s now id w =
    s.workers ≡ true → no_worker (dispatch_run now s.lookups id (service_world w)).1 ≡ true

dispatched-local :
    (s : Services) (now : ℕ) (id : String) (r : Run) (w : World) (x : Table × Result String)
    → no_worker x.1 ≡ true
    → (t : Table) × (dispatched s now id r w x ≡ execute_local s now id r (record w { tasks = t }))
dispatched-local s now id r w (t, err e) h = (t, refl)
dispatched-local s now id r w (t, ok worker) h = (t, rw h refl)

-- A run that no worker takes is executed here.
pub execute_run-local :
    (s : Services) (now : ℕ) (id : String) (d : RunData) (w : World)
    → IsStored id d w.db
    → WorksAlone s now id w
    → (t : Table) × (execute_run s now id w
        ≡ execute_local s now id (reconstruct_from_data d) (record w { tasks = t }))
unfolding execute_run
execute_run-local s now id d w h alone =
    let r = reconstruct_from_data d in
    let found =
      ap (λ (x : Result Run). execute_loaded s now id x w) (find_by_id-IsStored id d w.db h) in
    let choose = λ (b : Bool).
      if b
      then dispatched s now id r w (dispatch_run now s.lookups id (service_world w))
      else execute_local s now id r w in
    elim (Bool-cases s.workers) [
      | inl e ↦
          let (t, p) =
            dispatched-local s now id r w (dispatch_run now s.lookups id (service_world w))
              (alone e) in
          (t, found ∙ (ap choose e ∙ p))
      | inr e ↦ (w.tasks, found ∙ ap choose e)
    ]
