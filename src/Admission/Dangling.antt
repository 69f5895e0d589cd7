-- ===== src/Admission/Dangling.antt =====
-- Commands whose second save fails, and what a second try does.
use duragraph.Base.{
  ℕ, ◌≡◌, ◌≢◌, refl, sym, ap, ◌∙◌, Bool, true, false, Option, none, some, List, [], ◌∷◌, String,
  Bool-cases, inl, inr, arith, ◌==◌, if◌then◌else◌,
}
use mathlib.Core.Path.{subst}
use duragraph.Base.Text.{◌=ₛ◌, =ₛ_iff}
use duragraph.Base.Errors.{DomainError, internal, external}
use duragraph.User
use duragraph.User.{User}
use duragraph.User.Storage
use duragraph.User.Storage.{UserData}
use duragraph.User.Statuses.{is_approved, is_suspended}
use duragraph.Tenant
use duragraph.Tenant.{Tenant, start_provisioning}
use duragraph.Tenant.Storage.{TenantData, reconstruct_from_data, status_of_data}
use duragraph.Tenant.Statuses.{to_string, provisioning, provisioning_failed}
use duragraph.Admission.{
  World, Context, Answer, done, not_saved, accepted, saved_tenants, store_user, is_status,
  suspend_tenant, suspend_user, suspend_loaded,
}
use duragraph.Admission.Tenants
use duragraph.Admission.Tenants.{find_tenant_of, get_by_user_id}
use duragraph.Admission.Changes.{
  IsUser, IsOther, with_user-found, with_users, stored_change, suspends, status_loaded,
}

-- The row of a tenant, as its user's commands find it.
pub record IsTenant (user status : String) (t : TenantData) (w : World) : Type 0 where
  pub found : find_tenant_of user w.tenants ≡ some t
  pub status_is : t.status ≡ status

pub tenant_loaded :
    (user status : String) (t : TenantData) (w : World)
    → IsTenant user status t w
    → get_by_user_id user w.tenants ≡ some (reconstruct_from_data t)
unfolding get_by_user_id
tenant_loaded user status t w h = rw (get_by_user_id, h.found) refl

owner :
    (user : String) (ds : List TenantData) {t : TenantData}
    → find_tenant_of user ds ≡ some t
    → t.user_id ≡ user
unfolding find_tenant_of
owner user [] h = cc
owner user (x ∷ ds) {t} h = ground (arith, owner user ds {t = t}, =ₛ_iff x.user_id user)

-- A save that the database refuses leaves the table.

save_fails :
    (x : String) (at : ℕ) (t : Tenant) (ds : List TenantData)
    → (e : DomainError) × (Tenants.save (some x) at t ds ≡ (ds, some e))
unfolding Tenants.save Tenants.insert Tenants.update
save_fails x at t ds = elim (Bool-cases (t.loaded_updated_at == 0)) [
  | inl e ↦ (internal "failed to insert tenant" (external x), rw e refl)
  | inr e ↦ (internal "failed to update tenant" (external x), rw e refl)
]

-- What a save that fails leaves of a command on a tenant.
abbrev pub Fails : World → World × Answer → Type 0
Fails w (w', answer) = ((e : DomainError) × (answer ≡ not_saved e)) × (w' ≡ w)

pub stored-Fails :
    (c : Context) (x : String) (o : Tenant × Option DomainError) (w : World)
    (k : Tenant → World → World × Answer)
    → c.tenant_fault ≡ some x
    → o.1 ≡ none
    → Fails w
        (accepted o w (λ t. saved_tenants (Tenants.save c.tenant_fault c.at t w.tenants) w (k t)))
stored-Fails c x (t, some e) w k f n = cc
stored-Fails c x (t, none) w k f n =
    let (e, p) = save_fails x c.at t w.tenants in rw f (rw p ((e, refl), refl))

tenant_suspends :
    (now : ℕ) (id by reason : String) (t : TenantData) (w : World)
    → IsTenant id "approved" t w
    → IsOther id by
    → (is_status (reconstruct_from_data t).status Tenant.Statuses.approved ≡ true)
      × ((Tenant.suspend now by reason (reconstruct_from_data t)).1 ≡ none)
unfolding Tenant.suspend reconstruct_from_data status_of_data Tenant.Statuses.can_transition_to
    to_string
tenant_suspends now id by reason t w h o =
    let other = subst (λ j. (by =ₛ j) ≡ false) (sym (owner id w.tenants h.found)) o.other in
    rw other (rw h.status_is (refl, refl))

suspend_tenant-Fails :
    (c : Context) (x id by reason : String) (t : TenantData) (w : World)
    → IsTenant id "approved" t w
    → IsOther id by
    → c.tenant_fault ≡ some x
    → Fails w (suspend_tenant c by reason (get_by_user_id id w.tenants) w)
suspend_tenant-Fails c x id by reason t w h o f =
    let (approved, taken) = tenant_suspends c.now id by reason t w h o in
    rw (tenant_loaded id "approved" t w h) (
      rw approved (
        stored-Fails c x (Tenant.suspend c.now by reason (reconstruct_from_data t)) w
          (λ t' w'. (w', done)) f taken))

-- A user that is suspended stays so.
suspend_again :
    (c : Context) (id by reason : String) (d : UserData) (w : World)
    → IsUser id "suspended" d w
    → (by =ₛ "") ≡ false
    → suspend_user c id by reason w ≡ (w, done)
unfolding suspend_user Storage.status_of_data is_suspended
suspend_again c id by reason d w h b =
    with_user-found id by "suspended_by_user_id" w (suspend_loaded c id by reason w) h.named b
      h.found
    ∙ rw (status_loaded id "suspended" d w h) refl

approved_steps :
    (c : Context) (id by reason : String) (d : UserData) (w : World)
    → IsUser id "approved" d w
    → let r = Storage.reconstruct_from_data d in
      suspend_loaded c id by reason w r
      ≡ accepted (User.suspend c.now by reason r) w (λ u'.
        store_user c w u' (λ w'. suspend_tenant c by reason (get_by_user_id id w'.tenants) w'))
unfolding Storage.status_of_data is_suspended
approved_steps c id by reason d w h =
    let r = Storage.reconstruct_from_data d in
    ap
      (λ (b : Bool).
        if b
        then (w, done)
        else accepted (User.suspend c.now by reason r) w (λ u'.
          store_user c w u' (λ w'. suspend_tenant c by reason (get_by_user_id id w'.tenants) w')))
      (ap is_suspended (status_loaded id "approved" d w h))

-- An administrator suspends an approved user with an approved tenant; the user is stored, and the save
-- of the tenant fails. The error is answered, the user is suspended, and the tenants are as
-- they were. A second try, by anyone and even if nothing fails now, answers success and changes
-- nothing, so that the tenant stays approved.
pub suspend_retry_leaves_tenant :
    (c c' : Context) (x id by reason by' reason' : String) (d : UserData) (t : TenantData)
    (w : World)
    → IsUser id "approved" d w
    → IsTenant id "approved" t w
    → IsOther id by
    → (by' =ₛ "") ≡ false
    → c.user_fault ≡ none
    → c.tenant_fault ≡ some x
    → c.at ≢ 0
    → let (w', answer) = suspend_user c id by reason w in
      ((e : DomainError) × (answer ≡ not_saved e))
      × ((d' : UserData) × IsUser id "suspended" d' w')
      × (w'.tenants ≡ w.tenants)
      × (suspend_user c' id by' reason' w' ≡ (w', done))
unfolding suspend_user User.Statuses.to_string
suspend_retry_leaves_tenant c c' x id by reason by' reason' d t w h ht o b u f z =
    let r = Storage.reconstruct_from_data d in
    let k = λ (v : World). suspend_tenant c by reason (get_by_user_id id v.tenants) v in
    let m = suspends c.now id by reason d w h o in
    let v = with_users c (User.suspend c.now by reason r).0 w in
    let (path, row) =
      stored_change c id "approved" d User.Statuses.suspended (User.suspend c.now by reason r) w k h
        m u z in
    let (failed, same) =
      suspend_tenant-Fails c x id by reason t v
        (record { found = ht.found; status_is = ht.status_is }) o f in
    let to_step =
      with_user-found id by "suspended_by_user_id" w (suspend_loaded c id by reason w) h.named
        o.given h.found
      ∙ (approved_steps c id by reason d w h ∙ path) in
    let end : (suspend_user c id by reason w).0 ≡ v =
      ap (λ (y : World × Answer). y.0) to_step ∙ same in
    (
      (failed.0, ap (λ (y : World × Answer). y.1) to_step ∙ failed.1),
      subst (λ (y : World). (d' : UserData) × IsUser id "suspended" d' y) (sym end) row,
      ap (λ (y : World). y.tenants) end,
      subst (λ (y : World). suspend_user c' id by' reason' y ≡ (y, done)) (sym end)
          (suspend_again c' id by' reason' row.0 v row.1 b),
    )
